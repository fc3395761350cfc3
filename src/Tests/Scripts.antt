-- ===== src/Tests/Scripts.antt =====
-- The scripts where every call of the system succeeds.
use mathlib.Core.List.{Permᴰ}
use sshole.Base.{
  ◌≡◌, refl, true, false, Option, none, some, List, [], ◌∷◌, Str, inr, ℕ_discrete, str_discrete,
  All,
}
use sshole.Base.Text.{codes}
use sshole.Base.Dict.{Dict, insert, lookup}
use sshole.Scripts.Bins.{
  BuildInfo, Job, Files, copied_all, build_one, embed_bins, reset_hub_bins, copy_bins, is_gitkeep,
  from_root, build_environment,
}
use sshole.Scripts.Build.{
  entry_job, agent_job, BuildRun, BuildEnd, completed, release, release_jobs, targets,
  agent_targets, build_with, run_jobs, release_srcs, release_hub_job,
}
use sshole.Scripts.Build.Served.{IsBinary, served, completed-IsBinary}

abbrev info : BuildInfo
info = record {
  build_time = codes "t";
  git_branch = codes "m";
  git_commit = codes "c";
  git_tag = [];
  git_dirty = false;
  git_version = codes "v";
  build_dir = codes "d";
}

-- It stands for the compiler: the binary tells the system that it is for.
abbrev compiler : List Str → Option Str
compiler [] = none
compiler (os ∷ rest) = some os

-- Every call succeeds, and the directory has a stale file.
abbrev run : BuildRun
run = record {
  makes_dir = true;
  info = some info;
  go = λ command environment. compiler environment;
  bins = record { reads_dir = true; removes = λ name. true; copies = λ src name. copied_all };
  bins_dir = (codes "stale", []) ∷ (codes ".gitkeep", []) ∷ [];
}

abbrev files_of : BuildEnd → Files
files_of (completed f dir) = f
files_of _ = []

abbrev dir_of : BuildEnd → Dict Str Str
dir_of (completed f dir) = dir
dir_of _ = []

-- The first two jobs end in the other order.
abbrev swap_first : List Job → List Job
swap_first (a ∷ b ∷ jobs) = b ∷ a ∷ jobs
swap_first jobs = jobs

swap_first-perm : (jobs : List Job) → Permᴰ jobs (swap_first jobs)
swap_first-perm [] = Permᴰ.nil
swap_first-perm (a ∷ []) = Permᴰ.cons refl Permᴰ.nil
swap_first-perm (a ∷ b ∷ jobs) = Permᴰ.swap refl refl

abbrev swapped : BuildEnd
swapped = release run (swap_first release_jobs) []

swapped_completes :
    release run (swap_first release_jobs) [] ≡ completed (files_of swapped) (dir_of swapped)
unfolding release build_with release_jobs release_srcs release_hub_job targets agent_targets
    run_jobs build_one embed_bins insert ℕ_discrete str_discrete reset_hub_bins is_gitkeep copy_bins
    lookup from_root entry_job agent_job build_environment
swapped_completes = refl

completed-IsBinary_example :
    (i : BuildInfo) × (run.info ≡ some i) × All (IsBinary run i (dir_of swapped)) served
completed-IsBinary_example =
    completed-IsBinary run [] (files_of swapped) (dir_of swapped)
      (inr (swap_first release_jobs, swap_first-perm release_jobs, swapped_completes))
