-- ===== src/Agent/Keys.antt =====
-- pkg/agent/known_hosts.go, and the key file of pkg/agent/sshd.go: ~/.sshole/authorized_keys.
use mathlib.Core.List.{append-nil}
use sshole.Base.{
  ◌≡◌, ◌≢◌, Bool, true, false, ◌&&◌, Option, none, some, [], ◌++◌, Str, ◌==◌, str_eq, if◌then◌else◌,
  not, is_none, arith, inl, inr, Bool-cases,
}
use sshole.Base.Text.{codes, contains, trim_space, contains-append, contains_prefix}

-- The file, where it exists, and what the system calls answer; `readable` is whether a read of it
-- succeeds.
pub record KeyFile : Type 0 where
  pub home_known : Bool
  pub directory_made : Bool
  pub text : Option Str
  pub readable : Bool
  pub opened : Bool
  pub written : Bool

pub data KeyResult : Type 0 where
  done no_home no_directory not_opened not_written : KeyResult

abbrev pub content : Option Str → Str
content none = []
content (some t) = t

abbrev pub present : Option Str → Str → Bool
present none key = false
present (some t) key = contains t key

-- The file grows by the line where the write succeeds.
append_line : Str → KeyFile → KeyResult × KeyFile
append_line key f =
    if not f.opened
    then (not_opened, f)
    else if not f.written
    then (not_written, f)
    else (done, record f { text = some (content f.text ++ (key ++ codes "\n")) })

unfoldable pub append_authorized_key : Str → KeyFile → KeyResult × KeyFile
unfolding append_line
append_authorized_key raw f =
    let key = trim_space raw in
    if key == []
    then (done, f)
    else if not f.home_known
    then (no_home, f)
    else if not f.directory_made
    then (no_directory, f)
    else if f.readable && present f.text key
    then (done, f)
    else append_line key f

-- `os.Stat` fails where the file is missing; a failure to write it is only logged.
unfoldable pub ensure_authorized_keys_file : Str → KeyFile → KeyResult × KeyFile
ensure_authorized_keys_file home f =
    if trim_space home == []
    then (no_home, f)
    else if not f.directory_made
    then (no_directory, f)
    else if is_none f.text && f.written
    then (done, record f { text = some [] })
    else (done, f)

pub present-content :
    (t : Option Str) (key : Str) → present t key ≡ true → contains (content t) key ≡ true
present-content none key h = cc
present-content (some t) key h = h

-- Where a key that is not white space is accepted, the file then contains it and begins as it did,
-- and, where the file can be read, a second append of the same key changes nothing.
pub append_authorized_key_lem :
    (raw : Str) (f f' : KeyFile)
    → trim_space raw ≢ []
    → append_authorized_key raw f ≡ (done, f')
    → (contains (content f'.text) (trim_space raw) ≡ true)
      × ((rest : Str) × (content f'.text ≡ content f.text ++ rest))
      × (f.readable ≡ true → append_authorized_key raw f' ≡ (done, f'))
unfolding append_authorized_key
append_authorized_key_lem raw f f' given e =
    elim (Bool-cases (f.readable && present f.text (trim_space raw))) [
      | inl old ↦ (
        ground (arith, present-content f.text (trim_space raw) (ground arith)),
        ([], ground (arith, append-nil (content f.text))),
        λ readable. ground arith,
      )
      | inr new ↦
          let line = trim_space raw ++ codes "\n" in
          let there =
            contains-append (content f.text) line (trim_space raw)
              (contains_prefix (trim_space raw) (codes "\n")) in
          (ground (arith, there), (line, ground arith), λ readable. ground (arith, there))
    ]

-- A key that is empty but for white space, and a call that fails, leave the file as it was.
pub append_authorized_key_unchanged :
    (raw : Str) (f : KeyFile)
    → ((append_authorized_key raw f).0 ≢ done → (append_authorized_key raw f).1 ≡ f)
      × (trim_space raw ≡ [] → append_authorized_key raw f ≡ (done, f))
unfolding append_authorized_key
append_authorized_key_unchanged raw f = (λ h. ground arith, λ h. ground arith)
