-- ===== src/Base/Text.antt =====
-- The functions of Go's `strings` package that the program calls, on lists of bytes.
use Prim.Native.Char.{code}
use Prim.Native.String.{String}
use mathlib.Core.List.{reverse, append-nil}
use sshole.Base.Names.{
  ℕ, zero, suc, ◌+◌, ◌≡◌, refl, Bool, true, false, ◌&&◌, ◌||◌, [], ◌∷◌, ◌++◌, arith, ℕ_discrete,
  subst, ◌/◌, ◌%◌,
}
use sshole.Base.Equality.{Str, ◌==◌, if◌then◌else◌, nat_eq}
use sshole.Base.Lists.{leb, ltb, length, drop}

-- The bytes of a literal in ASCII.
abbrev pub codes : String → Str
codes String.[] = []
codes (String.◌∷◌ c s) = code c ∷ codes s

-- `strings.HasPrefix(s, p)`
abbrev pub has_prefix : Str → Str → Bool
has_prefix s [] = true
has_prefix [] (b ∷ p) = false
has_prefix (a ∷ s) (b ∷ p) = a == b && has_prefix s p

-- `strings.TrimPrefix(s, p)`
abbrev pub trim_prefix : Str → Str → Str
trim_prefix s p = if has_prefix s p then drop (length p) s else s

-- `strings.HasSuffix(s, p)` and `strings.TrimSuffix(s, p)`
abbrev pub has_suffix : Str → Str → Bool
has_suffix s p = has_prefix (reverse s) (reverse p)

abbrev pub trim_suffix : Str → Str → Str
trim_suffix s p = reverse (trim_prefix (reverse s) (reverse p))

-- `strings.Contains(s, p)`
unfoldable pub contains : Str → Str → Bool
contains [] p = has_prefix [] p
contains (a ∷ s) p = has_prefix (a ∷ s) p || contains s p

-- `strings.Replace(s, old, new, 1)`, for an `old` that is not empty.
unfoldable pub replace_first : Str → Str → Str → Str
replace_first [] old new = []
replace_first (a ∷ s) old new =
    let rest = replace_first s old new in
    if has_prefix (a ∷ s) old then new ++ drop (length old) (a ∷ s) else a ∷ rest

-- The decimal digits of a number, in front of `acc`; the fuel bounds their number.
decimal_onto : ℕ → ℕ → Str → Str
decimal_onto zero n acc = acc
decimal_onto (suc fuel) n acc =
    let rest = decimal_onto fuel (n / 10) ((b'0' + n % 10) ∷ acc) in
    if ltb n 10 then (b'0' + n) ∷ acc else rest

-- `%d` of a number that is not negative.
unfoldable pub decimal : ℕ → Str
unfolding decimal_onto
decimal n = decimal_onto (suc n) n []

decimal_test : decimal 22222 ≡ codes "22222"
unfolding decimal
decimal_test = refl

-- The white space of `unicode.IsSpace`, by the number of bytes that UTF-8 gives it.
abbrev pub is_space₁ : ℕ → Bool
is_space₁ a = a == 32 || (leb 9 a && leb a 13)

abbrev pub is_space₂ : ℕ → ℕ → Bool
is_space₂ a b = a == 0xc2 && (b == 0x85 || b == 0xa0)

abbrev pub is_space₃ : ℕ → ℕ → ℕ → Bool
is_space₃ a b c =
    (a == 0xe1 && b == 0x9a && c == 0x80)
    || (a == 0xe2 && b == 0x80 && (leb 0x80 c && leb c 0x8a || c == 0xa8 || c == 0xa9 || c == 0xaf))
    || (a == 0xe2 && b == 0x81 && c == 0x9f)
    || (a == 0xe3 && b == 0x80 && c == 0x80)

-- Cuts white space at the head, given the tests for space of two and of three bytes.
trim_with : (ℕ → ℕ → Bool) → (ℕ → ℕ → ℕ → Bool) → Str → Str
trim_with two three [] = []
trim_with two three (a ∷ []) = if is_space₁ a then [] else a ∷ []
trim_with two three (a ∷ b ∷ []) =
    let rest = trim_with two three (b ∷ []) in
    if is_space₁ a then rest else if two a b then [] else a ∷ b ∷ []
trim_with two three (a ∷ b ∷ c ∷ s) =
    let after₁ = trim_with two three (b ∷ c ∷ s) in
    let after₂ = trim_with two three (c ∷ s) in
    let after₃ = trim_with two three s in
    if is_space₁ a
    then after₁
    else if two a b
    then after₂
    else if three a b c
    then after₃
    else a ∷ b ∷ c ∷ s

-- `strings.TrimSpace(s)`: the head, then the tail read backwards.
unfoldable pub trim_space : Str → Str
unfolding trim_with
trim_space s = reverse (
    trim_with (λ a b. is_space₂ b a) (λ a b c. is_space₃ c b a)
      (reverse (trim_with is_space₂ is_space₃ s)))

trim_space_test : trim_space (codes " \t ssh key \n") ≡ codes "ssh key"
unfolding trim_space ℕ_discrete
trim_space_test = refl

pub has_prefix-append : (p s : Str) → has_prefix (p ++ s) p ≡ true
has_prefix-append [] s = refl
has_prefix-append (b ∷ p) s = ground (arith, has_prefix-append p s)

-- A text that has a prefix is the prefix and the rest.
pub has_prefix-split : (s p : Str) → has_prefix s p ≡ true → s ≡ p ++ drop (length p) s
has_prefix-split s [] h = refl
has_prefix-split [] (b ∷ p) h = cc
has_prefix-split (a ∷ s) (b ∷ p) h = ground (arith, has_prefix-split s p)

pub contains-append : (s t p : Str) → contains t p ≡ true → contains (s ++ t) p ≡ true
unfolding contains
contains-append [] t p h = h
contains-append (a ∷ s) t p h = ground (arith, contains-append s t p h)

pub contains_prefix : (p s : Str) → contains (p ++ s) p ≡ true
unfolding contains
contains_prefix [] [] = refl
contains_prefix [] (a ∷ s) = refl
contains_prefix (b ∷ p) s = ground (arith, has_prefix-append (b ∷ p) s)

pub contains_self : (p : Str) → contains p p ≡ true
contains_self p = subst (λ s. contains s p ≡ true) (append-nil p) (contains_prefix p [])
