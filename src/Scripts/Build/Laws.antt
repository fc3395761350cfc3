-- ===== src/Scripts/Build/Laws.antt =====
-- The first phase does not depend on the order in which its goroutines end.
use mathlib.Core.List.{Permᴰ}
use sshole.Base.{
  ◌≡◌, refl, ◌≢◌, inl, inr, sym, ◌∙◌, Option, none, some, List, [], ◌∷◌, Str, ◌==◌, nat_eq, str_eq,
  if◌then◌else◌, arith, Option-cases, All, str_discrete,
}
use sshole.Base.Dict.{lookup, insert, lookup-insert}
use sshole.Base.Perms.{All-perm, Pairwise, Pairwise-perm}
use sshole.Scripts.Bins.{BuildInfo, Job, Files, build_command, build_environment, build_one}
use sshole.Scripts.Build.{run_jobs}

abbrev pub Apart : Job → Job → Type 0
Apart j k = k.out ≢ j.out

-- No two jobs write the same file.
abbrev pub IsDisjoint : List Job → Type 0
IsDisjoint js = Pairwise Apart js

pub IsDisjoint-perm : {xs ys : List Job} → Permᴰ xs ys → IsDisjoint xs → IsDisjoint ys
IsDisjoint-perm p d = Pairwise-perm Apart (λ a b apart same. apart (sym same)) p d

-- The binary that the compiler gives for a job.
abbrev pub compiled : (List Str → List Str → Option Str) → BuildInfo → Job → Option Str
compiled go i j = go (build_command i j) (build_environment j)

module _ (go : List Str → List Str → Option Str) (i : BuildInfo) where
  -- A file that no job writes stays.
  run_jobs-other :
      (js : List Job) (files files' : Files) (path : Str)
      → run_jobs go i js files ≡ some files'
      → All (λ k. k.out ≢ path) js
      → lookup path files' ≡ lookup path files
  unfolding run_jobs build_one
  run_jobs-other [] files files' path e d = ground arith
  run_jobs-other (j ∷ js) files files' path e d = elim (Option-cases (compiled go i j)) [
    | inl f ↦ absurd (ground arith)
    | inr (binary, f) ↦ ground (
      arith,
      run_jobs-other js (insert j.out binary files) files' path (ground arith) d.1,
      lookup-insert path j.out binary files,
    )
  ]

  -- Each job that the phase runs has its own binary in its file.
  pub run_jobs-writes :
      (js : List Job) (files files' : Files)
      → run_jobs go i js files ≡ some files'
      → IsDisjoint js
      → All (λ k. (lookup k.out files' ≡ compiled go i k) × (compiled go i k ≢ none)) js
  unfolding run_jobs build_one
  run_jobs-writes [] files files' e d = tt
  run_jobs-writes (j ∷ js) files files' e d = elim (Option-cases (compiled go i j)) [
    | inl f ↦ absurd (ground arith)
    | inr (binary, f) ↦
        let rest = insert j.out binary files in
        (
          (
            run_jobs-other js rest files' j.out (ground arith) d.0
                ∙ ground (arith, lookup-insert j.out j.out binary files),
            ground arith,
          ),
          run_jobs-writes js rest files' (ground arith) d.1,
        )
  ]

  run_jobs-total :
      (js : List Job) (files : Files)
      → All (λ k. compiled go i k ≢ none) js
      → (files' : Files) × (run_jobs go i js files ≡ some files')
  unfolding run_jobs build_one
  run_jobs-total [] files u = (files, refl)
  run_jobs-total (j ∷ js) files u = elim (Option-cases (compiled go i j)) [
    | inl f ↦ absurd (u.0 f)
    | inr (binary, f) ↦
        let (files', e) = run_jobs-total js (insert j.out binary files) u.1 in
        (files', ground arith)
  ]

  -- What a path has after the jobs, for jobs that are disjoint.
  abbrev after : Str → List Job → Files → Option Str
  after path [] files = lookup path files
  after path (j ∷ js) files = if path == j.out then compiled go i j else after path js files

  after-other :
      (path : Str) (js : List Job) (files : Files)
      → All (λ k. k.out ≢ path) js
      → after path js files ≡ lookup path files
  after-other path [] files d = refl
  after-other path (j ∷ js) files d = ground (arith, after-other path js files d.1)

  run_jobs-lookup :
      (js : List Job) (files files' : Files) (path : Str)
      → run_jobs go i js files ≡ some files'
      → IsDisjoint js
      → lookup path files' ≡ after path js files
  unfolding run_jobs build_one
  run_jobs-lookup [] files files' path e d = ground arith
  run_jobs-lookup (j ∷ js) files files' path e d = elim (Option-cases (compiled go i j)) [
    | inl f ↦ absurd (ground arith)
    | inr (binary, f) ↦ elim (str_discrete path j.out) [
      | yes same ↦ ground (
        arith,
        run_jobs-other js (insert j.out binary files) files' j.out (ground arith) d.0,
        lookup-insert j.out j.out binary files,
      )
      | no other ↦ ground (
        arith,
        run_jobs-lookup js (insert j.out binary files) files' path (ground arith) d.1,
        after-insert path j.out binary js files other,
      )
    ]
  ]
    where
      after-insert :
          (path out binary : Str) (js : List Job) (files : Files)
          → path ≢ out
          → after path js (insert out binary files) ≡ after path js files
      after-insert path out binary [] files other =
          ground (arith, lookup-insert path out binary files)
      after-insert path out binary (k ∷ js) files other =
          ground (arith, after-insert path out binary js files other)

  after-perm :
      (path : Str) {xs ys : List Job} (files : Files)
      → Permᴰ xs ys
      → IsDisjoint xs
      → after path xs files ≡ after path ys files
  after-perm path files Permᴰ.nil d = refl
  after-perm path files (Permᴰ.cons e p) d = ground (arith, after-perm path files p d.1)
  after-perm path files (Permᴰ.swap e e') d = ground arith
  after-perm path files (Permᴰ.trans p q) d =
      after-perm path files p d ∙ after-perm path files q (IsDisjoint-perm p d)

  -- The order of disjoint jobs matters neither for their success nor for any file.
  pub run_jobs-perm :
      (jobs order : List Job) (files f : Files)
      → Permᴰ jobs order
      → IsDisjoint jobs
      → run_jobs go i jobs files ≡ some f
      → (f' : Files) × (run_jobs go i order files ≡ some f')
        × ((path : Str) → lookup path f ≡ lookup path f')
  run_jobs-perm jobs order files f p d e =
      let (f', e') = run_jobs-total order files (
        All-perm (λ k. compiled go i k ≢ none) p
          (All-second jobs (run_jobs-writes jobs files f e d))) in
      (
        f',
        e',
        λ path.
            run_jobs-lookup jobs files f path e d
            ∙ after-perm path files p d
            ∙ sym (run_jobs-lookup order files f' path e' (IsDisjoint-perm p d)),
      )
    where
      All-second :
          (js : List Job)
          → All (λ k. (lookup k.out f ≡ compiled go i k) × (compiled go i k ≢ none)) js
          → All (λ k. compiled go i k ≢ none) js
      All-second [] u = tt
      All-second (j ∷ js) u = (u.0.1, All-second js u.1)
