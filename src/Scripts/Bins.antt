-- ===== src/Scripts/Bins.antt =====
-- scripts/script/build_one.go: one `go build`, and the directory of binaries that the hub embeds. The
-- directory is the map from its names to the files' contents.
pub mod Laws
pub mod Contents
use sshole.Base.{
  ℕ, ◌≡◌, refl, Bool, true, false, ◌||◌, Option, none, some, List, [], ◌∷◌, ◌++◌, Str, ◌==◌, nat_eq,
  str_eq, if◌then◌else◌, not, drop, take, map, ℕ_discrete, str_discrete,
}
use sshole.Base.Text.{codes, has_prefix, contains}
use sshole.Base.Paths.{base_name}
use sshole.Base.Dict.{Dict, lookup, insert, erase}
use sshole.Hub.State.{DirEntry}

-- `goutils.BuildInfo`
pub record BuildInfo : Type 0 where
  pub build_time : Str
  pub git_branch : Str
  pub git_commit : Str
  pub git_tag : Str
  pub git_dirty : Bool
  pub git_version : Str
  pub build_dir : Str

-- `-X 'github.com/…/buildinfo.<name>=<value>'`
abbrev setting : Str → Str → Str
setting name value =
    codes "-X 'github.com/117503445/sshole/internal/buildinfo."
    ++ (name ++ (codes "=" ++ (value ++ codes "'")))

-- `%t`
abbrev pub bool_text : Bool → Str
bool_text b = if b then codes "true" else codes "false"

unfoldable pub ldflags : BuildInfo → Str
ldflags i =
    setting (codes "BuildTime") i.build_time
    ++ (codes " "
        ++ (setting (codes "GitBranch") i.git_branch
            ++ (codes " "
                ++ (setting (codes "GitCommit") i.git_commit
                    ++ (codes " "
                        ++ (setting (codes "GitTag") i.git_tag
                            ++ (codes " "
                                ++ (setting (codes "GitDirty") (bool_text i.git_dirty)
                                    ++ (codes " "
                                        ++ (setting (codes "GitVersion") i.git_version
                                            ++ (codes " "
                                                ++ setting (codes "BuildDir") i.build_dir)))))))))))

-- The arguments of buildOne but the context and the information on the build.
pub record Job : Type 0 where
  pub req_id : Str
  pub pkg_path : Str
  pub out : Str
  pub goos : Str
  pub goarch : Str

-- The command of buildOne: the program with its arguments, and what is appended to the environment.
unfoldable pub build_command : BuildInfo → Job → List Str
build_command i j =
    codes "go"
    ∷ codes "build"
    ∷ codes "-o"
    ∷ j.out
    ∷ codes "-ldflags"
    ∷ ldflags i
    ∷ codes "-trimpath"
    ∷ j.pkg_path
    ∷ []

unfoldable pub build_environment : Job → List Str
build_environment j =
    (codes "GOOS=" ++ j.goos) ∷ (codes "GOARCH=" ++ j.goarch) ∷ codes "CGO_ENABLED=0" ∷ []

-- The files of the project, by the paths of the jobs.
abbrev pub Files : Type 0
Files = Dict Str Str

-- buildOne: `go` gives the binary for a command and an environment, or fails. `none` is an error.
unfoldable pub build_one :
    (List Str → List Str → Option Str) → BuildInfo → Job → Files → Option Files
build_one go i j files = elim (go (build_command i j) (build_environment j)) [
  | none ↦ none
  | some binary ↦ some (insert j.out binary files)
]

pub data EmbedError : Type 0 where
  read_dir_failed : EmbedError
  remove_failed embed_failed : Str → EmbedError

unfoldable pub is_gitkeep : Str → Bool
is_gitkeep name = name == codes ".gitkeep"

-- The loop of resetHubBins over the entries that ReadDir found; `removes` is os.RemoveAll.
unfoldable pub remove_entries :
    (Str → Bool) → List Str → Dict Str Str → Option EmbedError × Dict Str Str
remove_entries removes [] dir = (none, dir)
remove_entries removes (name ∷ names) dir =
    if is_gitkeep name
    then remove_entries removes names dir
    else if removes name
    then remove_entries removes names (erase name dir)
    else (some (remove_failed name), dir)

abbrev pub names_of : Dict Str Str → List Str
names_of [] = []
names_of ((n, t) ∷ dir) = n ∷ names_of dir

-- How copyFile goes where its source is there: the destination is not opened, a write fails after this
-- many bytes, or all is written.
pub data Copied : Type 0 where
  not_opened : Copied
  copied_part : ℕ → Copied
  copied_all : Copied

-- What the operating system answers: whether the directory is read and a file is removed, and how a
-- source is copied to a name.
pub record BinsRun : Type 0 where
  pub reads_dir : Bool
  pub removes : Str → Bool
  pub copies : Str → Str → Copied

unfoldable pub reset_hub_bins : BinsRun → Dict Str Str → Option EmbedError × Dict Str Str
unfolding remove_entries
reset_hub_bins run dir =
    if run.reads_dir
    then remove_entries run.removes (names_of dir) dir
    else (some read_dir_failed, dir)

-- The name of the embedded file.
abbrev pub with_sshole : Str → Str
with_sshole name = if has_prefix name (codes "sshole_") then name else codes "sshole_" ++ name

abbrev pub has_platform : Str → Bool
has_platform name =
    contains name (codes "-linux-")
    || contains name (codes "-darwin-")
    || contains name (codes "-windows-")

unfoldable pub embed_name : Str → Str
embed_name src =
    let name = with_sshole (base_name src) in
    if has_platform name then name else name ++ codes "-linux-amd64"

abbrev pub embed_names : List Str → List Str
embed_names [] = []
embed_names (src ∷ srcs) = embed_name src ∷ embed_names srcs

-- The sources are named from scripts/script, and the outputs of buildOne from the project's root.
unfoldable pub from_root : Str → Str
from_root src = if has_prefix src (codes "../../") then codes "./" ++ drop 6 src else src

-- copyFile into the directory, for what the source contains: whether it succeeds, and what is there
-- afterwards. A source that is not there is not opened.
abbrev pub copy_file : Copied → Option Str → Str → Dict Str Str → Bool × Dict Str Str
copy_file copied none name dir = (false, dir)
copy_file not_opened (some text) name dir = (false, dir)
copy_file (copied_part n) (some text) name dir = (false, insert name (take n text) dir)
copy_file copied_all (some text) name dir = (true, insert name text dir)

-- The loop of embedBins.
unfoldable pub copy_bins :
    BinsRun → Files → List Str → Dict Str Str → Option EmbedError × Dict Str Str
copy_bins run files [] dir = (none, dir)
copy_bins run files (src ∷ srcs) dir =
    let name = embed_name src in
    let (copied, dir') = copy_file (run.copies src name) (lookup (from_root src) files) name dir in
    if copied then copy_bins run files srcs dir' else (some (embed_failed src), dir')

-- What follows resetHubBins.
abbrev pub after_reset :
    BinsRun → Files → List Str → Option EmbedError × Dict Str Str → Option EmbedError × Dict Str Str
after_reset run files srcs (some e, dir) = (some e, dir)
after_reset run files srcs (none, dir) = copy_bins run files srcs dir

unfoldable pub embed_bins :
    BinsRun → Files → List Str → Dict Str Str → Option EmbedError × Dict Str Str
embed_bins run files srcs dir = after_reset run files srcs (reset_hub_bins run dir)

-- What the hub reads of the directory, which holds files only.
abbrev pub dir_entries : Dict Str Str → List DirEntry
dir_entries [] = []
dir_entries ((n, t) ∷ dir) = record { entry_name = n; is_dir = false } ∷ dir_entries dir

embed_name_test :
    embed_name (codes "../../data/agent/sshole_agent") ≡ codes "sshole_agent-linux-amd64"
unfolding embed_name base_name contains ℕ_discrete str_discrete
embed_name_test = refl
