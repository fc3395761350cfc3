-- ===== src/Base/Paths.antt =====
-- `filepath.Base` on slashes, `strings.Cut`, and membership in a list of names.
use mathlib.Core.List.{reverse}
use sshole.Base.Names.{
  ◌≡◌, refl, Bool, false, ◌||◌, Option, none, some, List, [], ◌∷◌, ◌++◌, arith, ℕ_discrete,
}
use sshole.Base.Equality.{Str, ◌==◌, if◌then◌else◌, nat_eq, str_eq, str_discrete}
use sshole.Base.Lists.{length, drop}
use sshole.Base.Text.{codes, has_prefix}

drop_slashes : Str → Str
drop_slashes [] = []
drop_slashes (c ∷ s) = let rest = drop_slashes s in if c == b'/' then rest else c ∷ s

up_to_slash : Str → Str
up_to_slash [] = []
up_to_slash (c ∷ s) = let rest = up_to_slash s in if c == b'/' then [] else c ∷ rest

-- `filepath.Base(path)`
unfoldable pub base_name : Str → Str
unfolding drop_slashes up_to_slash
base_name [] = codes "."
base_name (c ∷ s) =
    let last = reverse (up_to_slash (drop_slashes (reverse (c ∷ s)))) in
    if last == [] then codes "/" else last

base_name_test : base_name (codes "../data/agent/sshole_agent") ≡ codes "sshole_agent"
unfolding base_name ℕ_discrete str_discrete
base_name_test = refl

-- What follows the first `sep`, as `strings.Cut` gives it.
unfoldable pub cut_after : Str → Str → Option Str
cut_after [] sep = if has_prefix [] sep then some [] else none
cut_after (c ∷ s) sep =
    let later = cut_after s sep in
    if has_prefix (c ∷ s) sep then some (drop (length sep) (c ∷ s)) else later

unfoldable pub has_name : Str → List Str → Bool
has_name n [] = false
has_name n (m ∷ ms) = n == m || has_name n ms

pub has_name-append :
    (n : Str) (a b : List Str) → has_name n (a ++ b) ≡ (has_name n a || has_name n b)
unfolding has_name
has_name-append n [] b = refl
has_name-append n (m ∷ a) b = ground (arith, has_name-append n a b)
