-- ===== src/Scripts/Build/Served.antt =====
-- What the hub serves is what was built.
use mathlib.Core.List.{Permᴰ}
use mathlib.Core.List.Permᴰ as Perm
use sshole.Base.{
  ◌≡◌, refl, ◌≢◌, ◌⊎◌, inl, inr, ◌∙◌, none, some, List, [], ◌∷◌, ◌++◌, Str, nat_eq, str_eq, arith,
  All, ℕ_discrete, str_discrete,
}
use sshole.Base.Text.{codes, contains}
use sshole.Base.Paths.{base_name}
use sshole.Base.Dict.{Dict, lookup}
use sshole.Base.Perms.{All-perm}
use sshole.Scripts.Bins.{BuildInfo, Job, Files, embed_name, from_root}
use sshole.Scripts.Bins.Contents.{NamesDiffer, embed_bins-lookup}
use sshole.Scripts.Build.{
  BuildRun, completed, build, release, build_with, build_jobs, release_jobs, build_srcs,
  release_srcs, build_hub_job, release_hub_job, targets, agent_targets, entry_job, agent_job,
}
use sshole.Scripts.Build.Laws.{IsDisjoint, IsDisjoint-perm, compiled, run_jobs-writes}
use sshole.Scripts.Build.Order.{
  build_jobs-IsDisjoint, release_jobs-IsDisjoint, build_with-completed,
}

-- A program for a platform.
pub record Binary : Type 0 where
  pub program : Str
  pub os : Str
  pub arch : Str

-- The name that README.md and the entries download it under.
abbrev pub binary_name : Binary → Str
binary_name b = codes "sshole_" ++ (b.program ++ (codes "-" ++ (b.os ++ (codes "-" ++ b.arch))))

-- Under its name the hub serves what the compiler made of the program for this platform.
abbrev pub IsBinary : BuildRun → BuildInfo → Dict Str Str → Binary → Type 0
IsBinary run i dir b =
    (j : Job) × (j.pkg_path ≡ codes "./cmd/" ++ b.program)
    × (j.goos ≡ b.os)
    × (j.goarch ≡ b.arch)
    × (lookup (binary_name b) dir ≡ compiled run.go i j)
    × (compiled run.go i j ≢ none)

abbrev pub served : List Binary
served =
    record { program = codes "agent"; os = codes "linux"; arch = codes "amd64" }
    ∷ record { program = codes "agent"; os = codes "darwin"; arch = codes "arm64" }
    ∷ record { program = codes "entry"; os = codes "linux"; arch = codes "amd64" }
    ∷ record { program = codes "entry"; os = codes "darwin"; arch = codes "arm64" }
    ∷ []

build_srcs-NamesDiffer : NamesDiffer build_srcs
unfolding build_srcs embed_name base_name contains ℕ_discrete str_discrete
build_srcs-NamesDiffer = ground arith

release_srcs-NamesDiffer : NamesDiffer release_srcs
unfolding release_srcs embed_name base_name contains ℕ_discrete str_discrete
release_srcs-NamesDiffer = ground arith

-- What a build that completes has written and embedded.
abbrev Outputs : BuildRun → BuildInfo → List Job → List Str → Dict Str Str → Type 0
Outputs run i jobs srcs dir =
    (made : Files) × All
      (λ k. (lookup k.out made ≡ compiled run.go i k) × (compiled run.go i k ≢ none)) jobs
    × All (λ src. lookup (embed_name src) dir ≡ lookup (from_root src) made) srcs

build_with-Outputs :
    (run : BuildRun) (jobs order : List Job) (srcs : List Str) (hub : Job) (files f : Files)
    (dir : Dict Str Str)
    → IsDisjoint jobs
    → NamesDiffer srcs
    → Permᴰ jobs order
    → build_with run order srcs hub files ≡ completed f dir
    → (i : BuildInfo) × (run.info ≡ some i) × Outputs run i jobs srcs dir
build_with-Outputs run jobs order srcs hub files f dir d names p e =
    let (i, made, makes, known, ran, embeds, built) =
      build_with-completed run order srcs hub files f dir e in
    let written = run_jobs-writes run.go i order files made ran (IsDisjoint-perm p d) in
    (
      i,
      known,
      (
        made,
        All-perm (λ k. (lookup k.out made ≡ compiled run.go i k) × (compiled run.go i k ≢ none))
            (Perm.symm p) written,
        embed_bins-lookup run.bins made srcs run.bins_dir dir embeds names,
      ),
    )

build-Outputs :
    (run : BuildRun) (i : BuildInfo) (dir : Dict Str Str)
    → Outputs run i build_jobs build_srcs dir
    → All (IsBinary run i dir) served
unfolding build_jobs build_srcs embed_name base_name contains from_root ℕ_discrete str_discrete
build-Outputs run i dir (made, w, l) = (
  (_, refl, refl, refl, l.0 ∙ w.0.0, w.0.1),
  (
    (_, refl, refl, refl, l.1.0 ∙ w.1.0.0, w.1.0.1),
    (
      (_, refl, refl, refl, l.1.1.0 ∙ w.1.1.0.0, w.1.1.0.1),
      ((_, refl, refl, refl, l.1.1.1.0 ∙ w.1.1.1.0.0, w.1.1.1.0.1), tt),
    ),
  ),
)

release-Outputs :
    (run : BuildRun) (i : BuildInfo) (dir : Dict Str Str)
    → Outputs run i release_jobs release_srcs dir
    → All (IsBinary run i dir) served
unfolding release_jobs targets agent_targets entry_job agent_job release_srcs embed_name base_name
    contains from_root ℕ_discrete str_discrete
release-Outputs run i dir (made, w, l) =
    let a = w.1.1.1.1.1.1 in
    (
      (_, refl, refl, refl, l.0 ∙ a.0.0, a.0.1),
      (
        (_, refl, refl, refl, l.1.0 ∙ a.1.0.0, a.1.0.1),
        (
          (_, refl, refl, refl, l.1.1.0 ∙ w.0.0, w.0.1),
          ((_, refl, refl, refl, l.1.1.1.0 ∙ w.1.1.1.0.0, w.1.1.1.0.1), tt),
        ),
      ),
    )

-- The first phase of build or of release has ended in some order, and the whole completes.
abbrev pub Completes : BuildRun → Files → Files → Dict Str Str → Type 0
Completes run files f dir =
    ((order : List Job) × Permᴰ build_jobs order × (build run order files ≡ completed f dir))
    ⊎ ((order : List Job) × Permᴰ release_jobs order × (release run order files ≡ completed f dir))

-- Where build or release completes, in whatever order the goroutines of its first phase end, the hub
-- serves for agent and entry, for linux-amd64 and darwin-arm64, under the name that tells so, what the
-- compiler made of this program for this platform.
pub completed-IsBinary :
    (run : BuildRun) (files f : Files) (dir : Dict Str Str)
    → Completes run files f dir
    → (i : BuildInfo) × (run.info ≡ some i) × All (IsBinary run i dir) served
unfolding build release
completed-IsBinary run files f dir (inl (order, p, e)) =
    let (i, known, outputs) =
      build_with-Outputs run build_jobs order build_srcs build_hub_job files f dir
        build_jobs-IsDisjoint build_srcs-NamesDiffer p e in
    (i, known, build-Outputs run i dir outputs)
completed-IsBinary run files f dir (inr (order, p, e)) =
    let (i, known, outputs) =
      build_with-Outputs run release_jobs order release_srcs release_hub_job files f dir
        release_jobs-IsDisjoint release_srcs-NamesDiffer p e in
    (i, known, release-Outputs run i dir outputs)
