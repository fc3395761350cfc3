-- ===== src/Scripts/Bins/Contents.antt =====
-- What the embedded files contain.
use sshole.Base.{
  ◌≡◌, refl, ◌≢◌, inl, inr, Option, none, some, List, [], ◌∷◌, Str, nat_eq, str_eq, arith, All,
}
use sshole.Base.Dict.{Dict, lookup, insert, lookup-insert}
use sshole.Base.Perms.{Pairwise}
use sshole.Scripts.Bins.{
  BinsRun, EmbedError, Files, from_root, embed_name, copy_file, copy_bins, after_reset, embed_bins,
  reset_hub_bins,
}
use sshole.Scripts.Bins.Laws.{copied_cases}

abbrev OtherName : Str → Str → Type 0
OtherName a b = embed_name b ≢ embed_name a

-- No two sources are embedded under the same name.
abbrev pub NamesDiffer : List Str → Type 0
NamesDiffer srcs = Pairwise OtherName srcs

-- A name that no source has stays.
copy_bins-other :
    (run : BinsRun) (files : Files) (srcs : List Str) (dir dir' : Dict Str Str) (n : Str)
    → copy_bins run files srcs dir ≡ (none, dir')
    → All (λ src. embed_name src ≢ n) srcs
    → lookup n dir' ≡ lookup n dir
unfolding copy_bins
copy_bins-other run files [] dir dir' n e u = ground arith
copy_bins-other run files (src ∷ srcs) dir dir' n e u =
    let name = embed_name src in
    elim (copied_cases (run.copies src name) (lookup (from_root src) files) name dir) [
      | inl (text, there, f) ↦ ground (
        arith,
        u.0,
        copy_bins-other run files srcs (insert name text dir) dir' n (ground arith) u.1,
        lookup-insert n name text dir,
      )
      | inr failed ↦ absurd (ground arith)
    ]

-- Each source is there, and is copied to its name.
copy_bins-lookup :
    (run : BinsRun) (files : Files) (srcs : List Str) (dir dir' : Dict Str Str)
    → copy_bins run files srcs dir ≡ (none, dir')
    → NamesDiffer srcs
    → All (λ src. lookup (embed_name src) dir' ≡ lookup (from_root src) files) srcs
unfolding copy_bins
copy_bins-lookup run files [] dir dir' e u = tt
copy_bins-lookup run files (src ∷ srcs) dir dir' e u =
    let name = embed_name src in
    elim (copied_cases (run.copies src name) (lookup (from_root src) files) name dir) [
      | inl (text, there, f) ↦
          let rest : copy_bins run files srcs (insert name text dir) ≡ (none, dir') =
            ground arith in
          (
            ground (
              arith,
              copy_bins-other run files srcs (insert name text dir) dir' name rest u.0,
              lookup-insert name name text dir,
            ),
            copy_bins-lookup run files srcs (insert name text dir) dir' rest u.1,
          )
      | inr failed ↦ absurd (ground arith)
    ]

-- Where embedBins succeeds, each source is embedded with its content.
pub embed_bins-lookup :
    (run : BinsRun) (files : Files) (srcs : List Str) (dir dir' : Dict Str Str)
    → embed_bins run files srcs dir ≡ (none, dir')
    → NamesDiffer srcs
    → All (λ src. lookup (embed_name src) dir' ≡ lookup (from_root src) files) srcs
unfolding embed_bins
embed_bins-lookup run files srcs dir dir' e u = go (reset_hub_bins run dir) e
  where
    go :
        (reset : Option EmbedError × Dict Str Str)
        → after_reset run files srcs reset ≡ (none, dir')
        → All (λ src. lookup (embed_name src) dir' ≡ lookup (from_root src) files) srcs
    go (some problem, d) e = absurd (ground arith)
    go (none, d) e = copy_bins-lookup run files srcs d dir' e u

copy_bins-same :
    (run : BinsRun) (files files' : Files) (srcs : List Str) (dir : Dict Str Str)
    → ((path : Str) → lookup path files ≡ lookup path files')
    → copy_bins run files srcs dir ≡ copy_bins run files' srcs dir
unfolding copy_bins
copy_bins-same run files files' [] dir same = refl
copy_bins-same run files files' (src ∷ srcs) dir same =
    let name = embed_name src in
    let copied = copy_file (run.copies src name) (lookup (from_root src) files) name dir in
    ground (arith, same (from_root src), copy_bins-same run files files' srcs copied.1 same)

-- Only what the files contain matters.
pub embed_bins-same :
    (run : BinsRun) (files files' : Files) (srcs : List Str) (dir : Dict Str Str)
    → ((path : Str) → lookup path files ≡ lookup path files')
    → embed_bins run files srcs dir ≡ embed_bins run files' srcs dir
unfolding embed_bins
embed_bins-same run files files' srcs dir same = go (reset_hub_bins run dir)
  where
    go :
        (reset : Option EmbedError × Dict Str Str)
        → after_reset run files srcs reset ≡ after_reset run files' srcs reset
    go (some problem, d) = refl
    go (none, d) = copy_bins-same run files files' srcs d same
