-- ===== src/Scripts/Zip.antt =====
-- createFcZip of scripts/script/build.go: an archive with one program. What the file system and
-- archive/zip answer is an argument. The deferred calls close the archive, whose errors are dropped.
use sshole.Base.{
  ℕ, ◌≡◌, ◌≢◌, ◌+◌, ◌*◌, Bool, true, Option, none, some, List, [], ◌∷◌, Str, arith, Option-cases,
  inl, inr, if◌then◌else◌, not, take,
}

pub record ZipEntry : Type 0 where
  pub name : Str
  pub deflated : Bool
  pub mode : ℕ
  pub content : Str

pub data ZipError : Type 0 where
  zip_not_created source_not_opened entry_not_created copy_failed : ZipError

-- `source` is the text of the source file, where it opens, and `stopped` the number of bytes after which
-- the copy fails, if it does.
pub record ZipRun : Type 0 where
  pub created : Bool
  pub source : Option Str
  pub header_written : Bool
  pub stopped : Option ℕ

-- 0755
abbrev executable : ℕ
executable = 7 * 64 + 5 * 8 + 5

abbrev program_entry : Str → Str → ZipEntry
program_entry name text = record { name = name; deflated = true; mode = executable; content = text }

-- The error, and the archive at the path afterwards.
unfoldable pub create_fc_zip : Str → ZipRun → Option ZipError × Option (List ZipEntry)
create_fc_zip name run = if not run.created then (some zip_not_created, none) else elim run.source [
  | none ↦ (some source_not_opened, some [])
  | some text ↦
      if not run.header_written then (some entry_not_created, some []) else elim run.stopped [
        | some n ↦ (some copy_failed, some (program_entry name (take n text) ∷ []))
        | none ↦ (none, some (program_entry name text ∷ []))
      ]
]

-- Where it succeeds, the archive has one entry, the whole program, executable and under its name.
pub create_fc_zip_succeeds :
    (name : Str) (run : ZipRun)
    → (create_fc_zip name run).0 ≡ none
    → (text : Str) × (run.source ≡ some text)
      × ((create_fc_zip name run).1 ≡ some (program_entry name text ∷ []))
unfolding create_fc_zip
create_fc_zip_succeeds name run e = elim (Option-cases run.source) [
  | inl unread ↦ absurd (ground arith)
  | inr (text, read) ↦ (text, read, ground arith)
]

-- Where it fails after the file was created, the file stays.
pub create_fc_zip_leaves_file :
    (name : Str) (run : ZipRun) → run.created ≡ true → (create_fc_zip name run).1 ≢ none
unfolding create_fc_zip
create_fc_zip_leaves_file name run made gone = ground arith
