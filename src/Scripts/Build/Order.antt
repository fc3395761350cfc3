-- ===== src/Scripts/Build/Order.antt =====
-- build and release as a whole: what they leave, and that the order of the goroutines does not matter.
use mathlib.Core.List.{Permᴰ}
use sshole.Base.{
  ◌≡◌, refl, ◌⊎◌, inl, inr, true, sym, ◌∙◌, Option, none, some, List, [], ◌∷◌, Str, nat_eq, str_eq,
  arith, Bool-cases, Option-cases, ℕ_discrete, str_discrete,
}
use sshole.Base.Text.{codes, contains}
use sshole.Base.Paths.{base_name, has_name}
use sshole.Base.Dict.{Dict, lookup, insert, lookup-insert}
use sshole.Hub.State.{entries}
use sshole.Hub.Start.{embedded_bin_names}
use sshole.Scripts.Bins.{
  BuildInfo, Job, Files, EmbedError, build_one, embed_bins, embed_names, embed_name, dir_entries,
  build_command, build_environment,
}
use sshole.Scripts.Bins.Laws.{embed_bins-embedded_bin_names}
use sshole.Scripts.Bins.Contents.{embed_bins-same}
use sshole.Scripts.Build.{
  run_jobs, build_jobs, release_jobs, entry_job, agent_job, targets, agent_targets, build_srcs,
  release_srcs, BuildRun, completed, build_with, build_hub, build_hub_job, release_hub_job, build,
  release,
}
use sshole.Scripts.Build.Laws.{IsDisjoint, run_jobs-perm}

-- The goroutines of build write different files.
pub build_jobs-IsDisjoint : IsDisjoint build_jobs
unfolding build_jobs
build_jobs-IsDisjoint = ground arith

-- And so do those of release.
pub release_jobs-IsDisjoint : IsDisjoint release_jobs
unfolding release_jobs targets agent_targets entry_job agent_job str_discrete ℕ_discrete
release_jobs-IsDisjoint = ground arith

-- The two ends are the same but for the order of the files.
abbrev pub SameFiles : Files → Files → Type 0
SameFiles f g = (path : Str) → lookup path f ≡ lookup path g

-- What holds where the build completes.
pub build_with-completed :
    (run : BuildRun) (order : List Job) (srcs : List Str) (hub : Job) (files f : Files)
    (dir : Dict Str Str)
    → build_with run order srcs hub files ≡ completed f dir
    → (i : BuildInfo) × (made : Files) × (run.makes_dir ≡ true)
      × (run.info ≡ some i)
      × (run_jobs run.go i order files ≡ some made)
      × (embed_bins run.bins made srcs run.bins_dir ≡ (none, dir))
      × (build_one run.go i hub made ≡ some f)
unfolding build_with
build_with-completed run order srcs hub files f dir e = elim (Bool-cases run.makes_dir) [
  | inr missing ↦ absurd (ground arith)
  | inl makes ↦ elim (Option-cases run.info) [
    | inl missing ↦ absurd (ground arith)
    | inr (i, known) ↦ elim (Option-cases (run_jobs run.go i order files)) [
      | inl failed ↦ absurd (ground arith)
      | inr (made, ran) ↦
          let (embeds, builds) =
            go i made (embed_bins run.bins made srcs run.bins_dir) (ground arith) in
          (i, made, makes, known, ran, embeds, builds)
    ]
  ]
]
  where
    go :
        (i : BuildInfo) (made : Files) (x : Option EmbedError × Dict Str Str)
        → build_hub run i hub made x ≡ completed f dir
        → (x ≡ (none, dir)) × (build_one run.go i hub made ≡ some f)
    go i made (some problem, d) e = absurd (ground arith)
    go i made (none, d) e = elim (Option-cases (build_one run.go i hub made)) [
      | inl failed ↦ absurd (ground arith)
      | inr (g, built) ↦ (ground arith, ground arith)
    ]

build_with-completes :
    (run : BuildRun) (order : List Job) (srcs : List Str) (hub : Job) (files f : Files)
    (dir : Dict Str Str) (i : BuildInfo) (made : Files)
    → run.makes_dir ≡ true
    → run.info ≡ some i
    → run_jobs run.go i order files ≡ some made
    → embed_bins run.bins made srcs run.bins_dir ≡ (none, dir)
    → build_one run.go i hub made ≡ some f
    → build_with run order srcs hub files ≡ completed f dir
unfolding build_with
build_with-completes run order srcs hub files f dir i made makes known ran embeds built =
    rw (makes, known, ran, embeds) (ground arith)

build_one-same :
    (go : List Str → List Str → Option Str) (i : BuildInfo) (j : Job) (made made' f : Files)
    → build_one go i j made ≡ some f
    → SameFiles made made'
    → (g : Files) × (build_one go i j made' ≡ some g) × SameFiles f g
unfolding build_one
build_one-same go i j made made' f e same =
    elim (Option-cases (go (build_command i j) (build_environment j))) [
      | inl failed ↦ absurd (ground arith)
      | inr (binary, built) ↦ (
        insert j.out binary made',
        ground arith,
        λ path. ground (
          arith,
          same path,
          lookup-insert path j.out binary made,
          lookup-insert path j.out binary made',
        ),
      )
    ]

build_with-perm :
    (run : BuildRun) (jobs order : List Job) (srcs : List Str) (hub : Job) (files f : Files)
    (dir : Dict Str Str)
    → Permᴰ jobs order
    → IsDisjoint jobs
    → build_with run jobs srcs hub files ≡ completed f dir
    → (g : Files) × (build_with run order srcs hub files ≡ completed g dir) × SameFiles f g
unfolding build_with
build_with-perm run jobs order srcs hub files f dir p d e =
    let (i, made, makes, known, ran, embeds, built) =
      build_with-completed run jobs srcs hub files f dir e in
    let (made', ran', same) = run_jobs-perm run.go i jobs order files made p d ran in
    let (g, built', alike) = build_one-same run.go i hub made made' f built same in
    let embeds' = sym (embed_bins-same run.bins made made' srcs run.bins_dir same) ∙ embeds in
    (
      g,
      build_with-completes run order srcs hub files g dir i made' makes known ran' embeds' built',
      alike,
    )

-- In whatever order the goroutines of build end, it completes with the same files and the same
-- embedded directory.
pub build_any_order :
    (run : BuildRun) (order : List Job) (files f : Files) (dir : Dict Str Str)
    → Permᴰ build_jobs order
    → build run build_jobs files ≡ completed f dir
    → (g : Files) × (build run order files ≡ completed g dir) × SameFiles f g
unfolding build
build_any_order run order files f dir p e =
    build_with-perm run build_jobs order build_srcs build_hub_job files f dir p
      build_jobs-IsDisjoint e

-- In whatever order the goroutines of release end, it completes with the same files and the same
-- embedded directory.
pub release_any_order :
    (run : BuildRun) (order : List Job) (files f : Files) (dir : Dict Str Str)
    → Permᴰ release_jobs order
    → release run release_jobs files ≡ completed f dir
    → (g : Files) × (release run order files ≡ completed g dir) × SameFiles f g
unfolding release
release_any_order run order files f dir p e =
    build_with-perm run release_jobs order release_srcs release_hub_job files f dir p
      release_jobs-IsDisjoint e

-- The binaries that README.md and the entries download.
abbrev pub served_names : List Str
served_names =
    codes "sshole_agent-linux-amd64"
    ∷ codes "sshole_agent-darwin-arm64"
    ∷ codes "sshole_entry-linux-amd64"
    ∷ codes "sshole_entry-darwin-arm64"
    ∷ []

build_names : embed_names build_srcs ≡ served_names
unfolding build_srcs embed_name base_name contains ℕ_discrete str_discrete
build_names = refl

release_names : embed_names release_srcs ≡ served_names
unfolding release_srcs embed_name base_name contains ℕ_discrete str_discrete
release_names = refl

build_with-serves :
    (run : BuildRun) (order : List Job) (srcs : List Str) (hub : Job) (files f : Files)
    (dir : Dict Str Str) (n : Str)
    → build_with run order srcs hub files ≡ completed f dir
    → has_name n (embedded_bin_names (entries (dir_entries dir))) ≡ has_name n (embed_names srcs)
build_with-serves run order srcs hub files f dir n e =
    let (i, made, makes, known, ran, embeds, built) =
      build_with-completed run order srcs hub files f dir e in
    embed_bins-embedded_bin_names run.bins made srcs run.bins_dir dir n embeds

-- After build or release completes, the hub serves the agent and the entry for linux-amd64 and
-- darwin-arm64 under the same four names, and nothing else.
pub completed-serves :
    (run : BuildRun) (order : List Job) (files f : Files) (dir : Dict Str Str) (n : Str)
    → (build run order files ≡ completed f dir) ⊎ (release run order files ≡ completed f dir)
    → has_name n (embedded_bin_names (entries (dir_entries dir))) ≡ has_name n served_names
unfolding build release
completed-serves run order files f dir n (inl e) =
    rw (← build_names) (build_with-serves run order build_srcs build_hub_job files f dir n e)
completed-serves run order files f dir n (inr e) =
    rw (← release_names) (build_with-serves run order release_srcs release_hub_job files f dir n e)
