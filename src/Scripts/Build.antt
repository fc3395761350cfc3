-- ===== src/Scripts/Build.antt =====
-- scripts/script/build.go and release.go: the binaries of agent and entry are built at the same time,
-- then embedded, and then the hub is built. The goroutines of the first phase are a list of jobs in the
-- order in which they end; a panic in one of them ends the process.
pub mod Laws
pub mod Order
pub mod Served
use sshole.Base.{
  ℕ, ◌≡◌, refl, Bool, true, false, Option, none, some, List, [], ◌∷◌, ◌++◌, Str, ◌==◌, nat_eq,
  str_eq, if◌then◌else◌,
}
use sshole.Base.Text.{codes}
use sshole.Base.Dict.{Dict}
use sshole.Scripts.Bins.{BuildInfo, Job, Files, build_one, EmbedError, BinsRun, embed_bins}

-- The jobs of the first phase of build.
unfoldable pub build_jobs : List Job
build_jobs =
    record {
      req_id = codes "build-agent-linux-amd64";
      pkg_path = codes "./cmd/agent";
      out = codes "./data/agent/sshole_agent";
      goos = codes "linux";
      goarch = codes "amd64";
    }
    ∷ record {
      req_id = codes "build-agent-darwin-arm64";
      pkg_path = codes "./cmd/agent";
      out = codes "./data/agent/sshole_agent-darwin-arm64";
      goos = codes "darwin";
      goarch = codes "arm64";
    }
    ∷ record {
      req_id = codes "build-entry-linux-amd64";
      pkg_path = codes "./cmd/entry";
      out = codes "./data/entry/sshole_entry";
      goos = codes "linux";
      goarch = codes "amd64";
    }
    ∷ record {
      req_id = codes "build-entry-darwin-arm64";
      pkg_path = codes "./cmd/entry";
      out = codes "./data/entry/sshole_entry-darwin-arm64";
      goos = codes "darwin";
      goarch = codes "arm64";
    }
    ∷ []

unfoldable pub build_srcs : List Str
build_srcs =
    codes "../../data/agent/sshole_agent"
    ∷ codes "../../data/agent/sshole_agent-darwin-arm64"
    ∷ codes "../../data/entry/sshole_entry"
    ∷ codes "../../data/entry/sshole_entry-darwin-arm64"
    ∷ []

unfoldable pub build_hub_job : Job
build_hub_job = record {
  req_id = codes "build-hub";
  pkg_path = codes "./cmd/hub";
  out = codes "./data/hub/sshole_hub";
  goos = codes "linux";
  goarch = codes "amd64";
}

-- The platforms of release, and the agent's.
unfoldable pub targets : List (Str × Str)
targets =
    (codes "linux", codes "amd64")
    ∷ (codes "linux", codes "arm64")
    ∷ (codes "darwin", codes "amd64")
    ∷ (codes "darwin", codes "arm64")
    ∷ (codes "windows", codes "amd64")
    ∷ (codes "windows", codes "arm64")
    ∷ []

unfoldable pub agent_targets : List (Str × Str)
agent_targets = (codes "linux", codes "amd64") ∷ (codes "darwin", codes "arm64") ∷ []

unfoldable pub entry_job : Str × Str → Job
entry_job (os, arch) =
    let ext = if os == codes "windows" then codes ".exe" else [] in
    record {
      req_id = codes "release-entry-" ++ (os ++ (codes "-" ++ arch));
      pkg_path = codes "./cmd/entry";
      out = codes "./data/release/sshole_entry-" ++ (os ++ (codes "-" ++ (arch ++ ext)));
      goos = os;
      goarch = arch;
    }

unfoldable pub agent_job : Str × Str → Job
agent_job (os, arch) = record {
  req_id = codes "release-agent-" ++ (os ++ (codes "-" ++ arch));
  pkg_path = codes "./cmd/agent";
  out = codes "./data/release/sshole_agent-" ++ (os ++ (codes "-" ++ arch));
  goos = os;
  goarch = arch;
}

abbrev jobs_for : (Str × Str → Job) → List (Str × Str) → List Job
jobs_for job [] = []
jobs_for job (t ∷ ts) = job t ∷ jobs_for job ts

-- The jobs of the first phase of release.
unfoldable pub release_jobs : List Job
unfolding targets agent_targets
release_jobs = jobs_for entry_job targets ++ jobs_for agent_job agent_targets

unfoldable pub release_srcs : List Str
release_srcs =
    codes "../../data/release/sshole_agent-linux-amd64"
    ∷ codes "../../data/release/sshole_agent-darwin-arm64"
    ∷ codes "../../data/release/sshole_entry-linux-amd64"
    ∷ codes "../../data/release/sshole_entry-darwin-arm64"
    ∷ []

unfoldable pub release_hub_job : Job
release_hub_job = record {
  req_id = codes "release-sshole_hub-linux-amd64";
  pkg_path = codes "./cmd/hub";
  out = codes "./data/release/sshole_hub-linux-amd64";
  goos = codes "linux";
  goarch = codes "amd64";
}

-- How the process ends, with the files and the embedded directory that it leaves.
pub data BuildEnd : Type 0 where
  exit_no_directory exit_no_info panicked_jobs : BuildEnd
  panicked_embed : EmbedError → BuildEnd
  panicked_hub : Dict Str Str → BuildEnd
  completed : Files → Dict Str Str → BuildEnd

-- What the system answers: the directory is made, the information is found, the compiler, and what
-- embedBins meets; and the directory of the hub's binaries before.
pub record BuildRun : Type 0 where
  pub makes_dir : Bool
  pub info : Option BuildInfo
  pub go : List Str → List Str → Option Str
  pub bins : BinsRun
  pub bins_dir : Dict Str Str

-- The first phase, in the order in which the jobs end.
unfoldable pub run_jobs :
    (List Str → List Str → Option Str) → BuildInfo → List Job → Files → Option Files
run_jobs go i [] files = some files
run_jobs go i (j ∷ js) files = elim (build_one go i j files) [
  | none ↦ none
  | some files' ↦ run_jobs go i js files'
]

-- The second phase.
abbrev pub build_hub :
    BuildRun → BuildInfo → Job → Files → Option EmbedError × Dict Str Str → BuildEnd
build_hub run i hub files (some e, dir) = panicked_embed e
build_hub run i hub files (none, dir) = elim (build_one run.go i hub files) [
  | none ↦ panicked_hub dir
  | some files' ↦ completed files' dir
]

-- build and release, for the order in which the jobs of the first phase end.
unfoldable pub build_with : BuildRun → List Job → List Str → Job → Files → BuildEnd
build_with run order srcs hub files =
    if run.makes_dir
    then elim run.info [
      | none ↦ exit_no_info
      | some i ↦ elim (run_jobs run.go i order files) [
        | none ↦ panicked_jobs
        | some files' ↦ build_hub run i hub files' (embed_bins run.bins files' srcs run.bins_dir)
      ]
    ]
    else exit_no_directory

unfoldable pub build : BuildRun → List Job → Files → BuildEnd
build run order files = build_with run order build_srcs build_hub_job files

unfoldable pub release : BuildRun → List Job → Files → BuildEnd
release run order files = build_with run order release_srcs release_hub_job files
