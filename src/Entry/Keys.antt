-- ===== src/Entry/Keys.antt =====
-- readPublicKey and ensureKnownHost of pkg/entry/entry.go.
use mathlib.Core.List.{append-nil}
use sshole.Base.{
  ◌&&◌, ℕ, ◌≡◌, true, Option, none, some, [], ◌++◌, Str, if◌then◌else◌, not, arith, inl, inr,
  Bool-cases,
}
use sshole.Base.Text.{
  codes, contains, trim_space, trim_prefix, has_prefix, decimal, contains-append, contains_self,
}
use sshole.Agent.Keys.{
  KeyFile, KeyResult, done, no_home, no_directory, not_opened, not_written, content, present,
  present-content,
}

-- `filepath.Join(home, rest)` is `join`; `home` is the home directory, where it is known.
module _ (join : Str → Str → Str) where
  unfoldable pub expand_home : Option Str → Str → Str
  expand_home home path =
      if has_prefix path (codes "~")
      then elim home [ none ↦ path | some h ↦ join h (trim_prefix path (codes "~")) ]
      else path

  -- `none` is an error of the read.
  unfoldable pub read_public_key : Option Str → (Str → Option Str) → Str → Option Str
  unfolding expand_home
  read_public_key home read_file path = elim (read_file (expand_home home path)) [
    | none ↦ none
    | some text ↦ some (trim_space text)
  ]

-- The line of known_hosts for the local port; the key is that of pkg/agent/hostkey.go.
unfoldable pub known_host_entry : ℕ → Str → Str
known_host_entry port key =
    codes "[localhost]:" ++ (decimal port ++ (codes " " ++ (key ++ codes "\n")))

abbrev add_entry : Str → KeyFile → KeyResult × KeyFile
add_entry entry f =
    if not f.opened
    then (not_opened, f)
    else if not f.written
    then (not_written, f)
    else (done, record f { text = some (content f.text ++ entry) })

unfoldable pub ensure_known_host : ℕ → Str → KeyFile → KeyResult × KeyFile
ensure_known_host port key f =
    let entry = known_host_entry port key in
    if not f.home_known
    then (no_home, f)
    else if not f.directory_made
    then (no_directory, f)
    else if f.readable && present f.text entry
    then (done, f)
    else add_entry entry f

-- After a success known_hosts contains the line and begins as it did, and, where it can be read, a
-- second call leaves it alone.
pub ensure_known_host_lem :
    (port : ℕ) (key : Str) (f f' : KeyFile)
    → ensure_known_host port key f ≡ (done, f')
    → (contains (content f'.text) (known_host_entry port key) ≡ true)
      × ((rest : Str) × (content f'.text ≡ content f.text ++ rest))
      × (f.readable ≡ true → ensure_known_host port key f' ≡ (done, f'))
unfolding ensure_known_host
ensure_known_host_lem port key f f' e =
    let entry = known_host_entry port key in
    elim (Bool-cases (f.readable && present f.text entry)) [
      | inl old ↦ (
        ground (arith, present-content f.text entry (ground arith)),
        ([], ground (arith, append-nil (content f.text))),
        λ readable. ground arith,
      )
      | inr new ↦
          let there = contains-append (content f.text) entry entry (contains_self entry) in
          (ground (arith, there), (entry, ground arith), λ readable. ground (arith, there))
    ]
