-- ===== src/Common/Caller.antt =====
-- pkg/common/logger.go: how the caller of a log line is shown. `regexp` is the search for
-- `(github\.com/[^\@]+@[^\}/]+)(.*)`: leftmost, and each part as long as it can be.
use sshole.Base.{
  ℕ, ◌≡◌, refl, Bool, ◌||◌, Option, none, some, [], ◌∷◌, ◌++◌, Str, ◌==◌, nat_eq, str_eq,
  if◌then◌else◌, length, drop, ℕ_discrete, str_discrete,
}
use sshole.Base.Text.{codes, has_prefix, decimal}
use sshole.Base.Paths.{base_name, cut_after}

-- Up to the first byte for which `stop` holds, and from it on.
abbrev pub span_until : (ℕ → Bool) → Str → Str × Str
span_until stop [] = ([], [])
span_until stop (c ∷ s) =
    let (a, b) = span_until stop s in if stop c then ([], c ∷ s) else (c ∷ a, b)

abbrev is_at : ℕ → Bool
is_at c = c == b'@'

abbrev ends_version : ℕ → Bool
ends_version c = c == b'}' || c == b'/'

abbrev is_newline : ℕ → Bool
is_newline c = c == 10

-- What follows "github.com/": a module, "@", a version, and the rest of the line.
abbrev match_version : Str → Str × Str → Option Str
match_version module_path ([], rest) = none
match_version module_path (v ∷ version, rest) =
    some (module_path ++ (codes "@" ++ ((v ∷ version) ++ (span_until is_newline rest).0)))

abbrev match_module : Str × Str → Option Str
match_module ([], rest) = none
match_module (m ∷ module_path, []) = none
match_module (m ∷ module_path, at ∷ rest) =
    match_version (m ∷ module_path) (span_until ends_version rest)

-- The match of the expression at the head of the text.
unfoldable pub match_here : Str → Option Str
match_here s =
    if has_prefix s (codes "github.com/")
    then elim (match_module (span_until is_at (drop (length (codes "github.com/")) s))) [
      | none ↦ none
      | some m ↦ some (codes "github.com/" ++ m)
    ]
    else none

-- FindStringSubmatch: the leftmost match.
unfoldable pub find_module : Str → Option Str
unfolding match_here
find_module [] = none
find_module (c ∷ s) =
    let later = find_module s in elim (match_here (c ∷ s)) [ some m ↦ some m | none ↦ later ]

unfoldable pub caller_marshal_func : Str → ℕ → Str
unfolding find_module
caller_marshal_func file line =
    let shown : Str = elim (find_module file) [
      | some m ↦ m
      | none ↦ elim (cut_after file (codes "pkg/mod/")) [
        | some after ↦ after
        | none ↦ base_name file
      ]
    ] in
    shown ++ (codes ":" ++ decimal line)

caller_module :
    caller_marshal_func (codes "../go/pkg/mod/github.com/a/b@v1/c.go") 12
    ≡ codes "github.com/a/b@v1/c.go:12"
unfolding caller_marshal_func cut_after decimal ℕ_discrete str_discrete
caller_module = refl

caller_file : caller_marshal_func (codes "/src/pkg/hub/hub.go") 7 ≡ codes "hub.go:7"
unfolding caller_marshal_func cut_after base_name decimal ℕ_discrete str_discrete
caller_file = refl
