-- ===== src/Scripts/Bins/Laws.antt =====
-- What the hub serves of the binaries that were embedded.
use sshole.Base.{
  ◌≡◌, refl, ◌⊎◌, inl, inr, Bool, true, false, ◌&&◌, ◌||◌, Option, none, some, List, [], ◌∷◌, ◌++◌,
  Str, ◌==◌, nat_eq, str_eq, not, arith, Bool-cases,
}
use sshole.Base.Text.{codes, has_prefix, has_prefix-append, contains-append, contains_prefix}
use sshole.Base.Paths.{base_name, has_name}
use sshole.Base.Dict.{Dict, lookup, insert, erase}
use sshole.Hub.State.{entries}
use sshole.Hub.Start.{embedded_bin_names, real_names}
use sshole.Scripts.Bins.{
  BinsRun, EmbedError, Copied, copied_all, copied_part, not_opened, Files, from_root, names_of,
  remove_entries, reset_hub_bins, with_sshole, has_platform, embed_name, embed_names, is_gitkeep,
  copy_file, copy_bins, embed_bins, dir_entries,
}

has_prefix-grow : (s t p : Str) → has_prefix s p ≡ true → has_prefix (s ++ t) p ≡ true
has_prefix-grow s t [] h = refl
has_prefix-grow [] t (b ∷ p) h = cc
has_prefix-grow (a ∷ s) t (b ∷ p) h = ground (arith, has_prefix-grow s t p)

with_sshole_prefix : (s : Str) → has_prefix (with_sshole s) (codes "sshole_") ≡ true
with_sshole_prefix s = ground (arith, has_prefix-append (codes "sshole_") s)

-- Whatever its source, an embedded file's name begins with "sshole_" and names a platform.
pub embed_name_lem :
    (src : Str)
    → (has_prefix (embed_name src) (codes "sshole_") ≡ true)
      × (has_platform (embed_name src) ≡ true)
unfolding embed_name
embed_name_lem src = elim (Bool-cases (has_platform (with_sshole (base_name src)))) [
  | inl e ↦ (rw e (with_sshole_prefix (base_name src)), rw e e)
  | inr e ↦
      let name = with_sshole (base_name src) in
      let suffix =
        contains-append name (codes "-linux-amd64") (codes "-linux-")
          (contains_prefix (codes "-linux-") (codes "amd64")) in
      (
        rw e (
            has_prefix-grow name (codes "-linux-amd64") (codes "sshole_")
              (with_sshole_prefix (base_name src))),
        rw e (ground (arith, suffix)),
      )
]

-- The names of the directory that are files, as the hub lists them.
listed :
    (n : Str) (dir : Dict Str Str)
    → has_name n (real_names (dir_entries dir))
      ≡ (not (n == codes ".gitkeep") && has_name n (names_of dir))
unfolding has_name real_names
listed n [] = ground arith
listed n ((m, t) ∷ dir) = ground (arith, listed n dir)

has_name-insert :
    (n k t : Str) (dir : Dict Str Str)
    → has_name n (names_of (insert k t dir)) ≡ (n == k || has_name n (names_of dir))
unfolding has_name insert
has_name-insert n k t [] = refl
has_name-insert n k t ((m, u) ∷ dir) = ground (arith, has_name-insert n k t dir)

has_name-erase :
    (n k : Str) (dir : Dict Str Str)
    → has_name n (names_of (erase k dir)) ≡ (not (n == k) && has_name n (names_of dir))
unfolding has_name erase
has_name-erase n k [] = ground arith
has_name-erase n k ((m, u) ∷ dir) = ground (arith, has_name-erase n k dir)

remove_entries-names :
    (removes : Str → Bool) (names : List Str) (dir dir' : Dict Str Str) (n : Str)
    → remove_entries removes names dir ≡ (none, dir')
    → has_name n (names_of dir')
      ≡ (has_name n (names_of dir) && (is_gitkeep n || not (has_name n names)))
unfolding remove_entries has_name
remove_entries-names removes [] dir dir' n e = ground arith
remove_entries-names removes (m ∷ names) dir dir' n e = ground (
  arith,
  remove_entries-names removes names dir dir' n,
  remove_entries-names removes names (erase m dir) dir' n,
  has_name-erase n m dir,
)

-- A copy that succeeds writes what the source contains.
pub copied_cases :
    (c : Copied) (text : Option Str) (name : Str) (dir : Dict Str Str)
    → ((t : Str) × (text ≡ some t) × (copy_file c text name dir ≡ (true, insert name t dir)))
      ⊎ ((copy_file c text name dir).0 ≡ false)
copied_cases c none name dir = inr refl
copied_cases not_opened (some t) name dir = inr refl
copied_cases (copied_part n) (some t) name dir = inr refl
copied_cases copied_all (some t) name dir = inl (t, refl, refl)

copy_bins-names :
    (run : BinsRun) (files : Files) (srcs : List Str) (dir dir' : Dict Str Str) (n : Str)
    → copy_bins run files srcs dir ≡ (none, dir')
    → has_name n (names_of dir') ≡ (has_name n (embed_names srcs) || has_name n (names_of dir))
unfolding copy_bins has_name
copy_bins-names run files [] dir dir' n e = ground arith
copy_bins-names run files (src ∷ srcs) dir dir' n e =
    let name = embed_name src in
    elim (copied_cases (run.copies src name) (lookup (from_root src) files) name dir) [
      | inl (text, there, f) ↦ ground (
        arith,
        copy_bins-names run files srcs (insert name text dir) dir' n,
        has_name-insert n name text dir,
      )
      | inr failed ↦ absurd (ground arith)
    ]

embed_name-gitkeep : (srcs : List Str) → has_name (codes ".gitkeep") (embed_names srcs) ≡ false
unfolding has_name
embed_name-gitkeep [] = refl
embed_name-gitkeep (src ∷ srcs) = ground (arith, embed_name-gitkeep srcs, (embed_name_lem src).0)

-- Where embedBins succeeds, the hub that embeds the directory serves exactly the names of the sources,
-- whatever stale files the directory had.
pub embed_bins-embedded_bin_names :
    (run : BinsRun) (files : Files) (srcs : List Str) (dir dir' : Dict Str Str) (n : Str)
    → embed_bins run files srcs dir ≡ (none, dir')
    → has_name n (embedded_bin_names (entries (dir_entries dir'))) ≡ has_name n (embed_names srcs)
unfolding is_gitkeep embed_bins reset_hub_bins embedded_bin_names
embed_bins-embedded_bin_names run files srcs dir dir' n e =
    elim (pair_cases (remove_entries run.removes (names_of dir) dir)) [
      | inl (middle, f) ↦ ground (
        arith,
        listed n dir',
        copy_bins-names run files srcs middle dir' n,
        remove_entries-names run.removes (names_of dir) dir middle n f,
        embed_name-gitkeep srcs,
      )
      | inr (problem, middle, f) ↦ absurd (ground arith)
    ]
  where
    pair_cases :
        (x : Option EmbedError × Dict Str Str)
        → ((d : Dict Str Str) × (x ≡ (none, d)))
          ⊎ ((p : EmbedError) × (d : Dict Str Str) × (x ≡ (some p, d)))
    pair_cases (none, d) = inl (d, refl)
    pair_cases (some p, d) = inr (p, d, refl)
