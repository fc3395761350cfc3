-- ===== src/Scripts/E2e.antt =====
-- scripts/script/pkg/e2e: the end-to-end test as the commands that it runs. What the container runtime
-- and the file system answer is an argument; waiting is left out.
pub mod Run
use sshole.Base.{
  ℕ, ◌≡◌, Bool, true, false, ◌&&◌, Option, none, some, List, [], ◌∷◌, ◌++◌, Str, ◌==◌, nat_eq,
  str_eq, if◌then◌else◌, length, take, ◌-◌,
}
use sshole.Base.Text.{codes}
use sshole.Base.Paths.{base_name}
use sshole.Base.Dict.{Dict}
use sshole.Scripts.Docker.{detect_container_runtime}

-- The search of init for the project's root: the directories from the working directory up, each with
-- what is asked of it. A directory is known by its path.
pub record Level : Type 0 where
  pub path : Str
  pub has_go_mod : Bool
  pub has_cmd : Bool
  -- `filepath.Dir(dir)` and `filepath.Dir(filepath.Dir(dir))`
  pub parent : Str
  pub grandparent : Str

abbrev is_script_dir : Level → Bool
is_script_dir l = base_name l.path == codes "script" && base_name l.parent == codes "scripts"

unfoldable pub find_project_root : Str → List Level → Str
find_project_root wd [] = wd
find_project_root wd (l ∷ levels) =
    let above = find_project_root wd levels in
    if l.has_go_mod && is_script_dir l
    then l.grandparent
    else if l.has_go_mod && l.has_cmd
    then l.path
    else above

-- The mapping that ensureE2EMapping writes.
unfoldable pub e2e_mapping : Dict Str ℕ
e2e_mapping = (codes "test-agent", 10022) ∷ (codes "test-agent-auth", 10023) ∷ []

-- ensureE2EKeypair: whether the key is there, is generated, or only its public half is written.
pub data Keypair : Type 0 where
  key_exists key_generated fallback_written keypair_panicked : Keypair

unfoldable pub ensure_keypair : Bool → Bool → Bool → Bool → Keypair
ensure_keypair dir_made exists generated written =
    if dir_made
    then (if exists
        then key_exists
        else if generated
        then key_generated
        else if written
        then fallback_written
        else keypair_panicked)
    else keypair_panicked

pub record CaseParams : Type 0 where
  pub mapping_file : Str
  pub public_key_path : Str
  pub private_key_path : Str

-- The private key's path is the public one's without its last four bytes.
unfoldable pub case_params : Str → Str → CaseParams
case_params mapping public_key = record {
  mapping_file = mapping;
  public_key_path = public_key;
  private_key_path = take (length public_key - 4) public_key;
}

-- A command of the container runtime: its arguments.
abbrev pub Command : Type 0
Command = List Str

abbrev image_list : List Str
image_list =
    codes "117503445/sshole-hub"
    ∷ codes "117503445/sshole-agent"
    ∷ codes "117503445/sshole-entry"
    ∷ []

abbrev list_image : Str → Command
list_image image = codes "images" ∷ image ∷ codes "--format" ∷ codes "{{.Repository}}:{{.Tag}}" ∷ []

-- checkDockerImages: `listed` is the output of a command, `none` its failure.
unfoldable pub images_exist : (Command → Option Str) → List Str → Bool
images_exist listed [] = true
images_exist listed (image ∷ rest) =
    let others = images_exist listed rest in
    elim (listed (list_image image)) [ none ↦ false | some [] ↦ false | some (c ∷ s) ↦ others ]

-- The three commands that start the containers of a case.
unfoldable pub basic_containers : CaseParams → List Command
basic_containers p =
    (codes "run"
      ∷ codes "--name"
      ∷ codes "hub"
      ∷ codes "--rm"
      ∷ codes "--network"
      ∷ codes "sshole-test"
      ∷ codes "-v"
      ∷ (p.mapping_file ++ codes ":/tmp/port_mapping.json")
      ∷ codes "-e"
      ∷ codes "MAPPING_FILE=/tmp/port_mapping.json"
      ∷ codes "117503445/sshole-hub"
      ∷ [])
    ∷ (codes "run"
        ∷ codes "-e"
        ∷ codes "NAME=test-agent"
        ∷ codes "--name"
        ∷ codes "agent"
        ∷ codes "--rm"
        ∷ codes "--network"
        ∷ codes "sshole-test"
        ∷ codes "117503445/sshole-agent"
        ∷ codes "--hub-server"
        ∷ codes "http://hub:9000"
        ∷ [])
    ∷ (codes "run"
        ∷ codes "--name"
        ∷ codes "entry"
        ∷ codes "--rm"
        ∷ codes "-p"
        ∷ codes "22222:22222"
        ∷ codes "--network"
        ∷ codes "sshole-test"
        ∷ codes "-v"
        ∷ (p.public_key_path ++ codes ":/tmp/public_key.pub")
        ∷ codes "-v"
        ∷ (p.private_key_path ++ codes ":/tmp/private_key")
        ∷ codes "-e"
        ∷ codes "AGENT_NAME=test-agent"
        ∷ codes "-e"
        ∷ codes "PUBLIC_KEY=/tmp/public_key.pub"
        ∷ codes "-e"
        ∷ codes "PRIVATE_KEY=/tmp/private_key"
        ∷ codes "117503445/sshole-entry"
        ∷ codes "--hub-server"
        ∷ codes "http://hub:9000"
        ∷ [])
    ∷ []

unfoldable pub auth_containers : CaseParams → List Command
auth_containers p =
    (codes "run"
      ∷ codes "--name"
      ∷ codes "hub-auth"
      ∷ codes "--rm"
      ∷ codes "--network"
      ∷ codes "sshole-auth-test"
      ∷ codes "-v"
      ∷ (p.mapping_file ++ codes ":/tmp/port_mapping.json")
      ∷ codes "-e"
      ∷ codes "AUTH=123456"
      ∷ codes "-e"
      ∷ codes "MAPPING_FILE=/tmp/port_mapping.json"
      ∷ codes "117503445/sshole-hub"
      ∷ [])
    ∷ (codes "run"
        ∷ codes "-e"
        ∷ codes "AUTH=123456"
        ∷ codes "-e"
        ∷ codes "NAME=test-agent-auth"
        ∷ codes "--name"
        ∷ codes "agent-auth"
        ∷ codes "--rm"
        ∷ codes "--network"
        ∷ codes "sshole-auth-test"
        ∷ codes "117503445/sshole-agent"
        ∷ codes "--hub-server"
        ∷ codes "http://hub-auth:9000"
        ∷ [])
    ∷ (codes "run"
        ∷ codes "--name"
        ∷ codes "entry-auth"
        ∷ codes "--rm"
        ∷ codes "--network"
        ∷ codes "sshole-auth-test"
        ∷ codes "-v"
        ∷ (p.public_key_path ++ codes ":/tmp/public_key.pub")
        ∷ codes "-e"
        ∷ codes "AUTH=123456"
        ∷ codes "-e"
        ∷ codes "AGENT_NAME=test-agent-auth"
        ∷ codes "-e"
        ∷ codes "PUBLIC_KEY=/tmp/public_key.pub"
        ∷ codes "117503445/sshole-entry"
        ∷ codes "--hub-server"
        ∷ codes "http://hub-auth:9000"
        ∷ [])
    ∷ []

abbrev create_network : Str → Command
create_network n = codes "network" ∷ codes "create" ∷ n ∷ []

-- The commands that stop the containers and remove the network. Their failures are only logged.
abbrev pub stop_all : Str → Str → List Command
stop_all suffix n =
    (codes "stop" ∷ (codes "hub" ++ suffix) ∷ [])
    ∷ (codes "stop" ∷ (codes "agent" ++ suffix) ∷ [])
    ∷ (codes "stop" ∷ (codes "entry" ++ suffix) ∷ [])
    ∷ (codes "network" ∷ codes "rm" ∷ n ∷ [])
    ∷ []

-- The containers are started in order; the first that does not start makes the test panic. With the
-- commands that were run.
unfoldable pub start_containers : (Command → Bool) → List Command → Bool × List Command
start_containers starts [] = (true, [])
start_containers starts (c ∷ cs) =
    let (all, ran) = start_containers starts cs in
    if starts c then (all, c ∷ ran) else (false, c ∷ [])

-- testSSHConnectivity: the key is read and parsed, the tunnel is dialled, a session is opened and the
-- command runs; else it panics.
unfoldable pub ssh_works : Bool → Bool → Bool → Bool → Bool → Bool
ssh_works read parsed dialled session ran = read && (parsed && (dialled && (session && ran)))

-- What the system answers in one case.
pub record CaseRun : Type 0 where
  pub info_ok : Str → Bool
  pub cached : Str
  pub listed : Command → Option Str
  pub starts : Command → Bool
  pub ssh : Bool

-- How a case ends, with the commands of the container runtime after the check of the images.
pub data CaseEnd : Type 0 where
  case_no_runtime case_no_images : CaseEnd
  case_panicked case_completed : List Command → CaseEnd

-- From the network on, with the result of the test over SSH, which runAuthTest does not make.
abbrev run_containers : CaseRun → Str → Str → Bool → List Command → CaseEnd
run_containers run suffix n ssh commands =
    let (started, ran) = start_containers run.starts commands in
    if started && ssh
    then case_completed (create_network n ∷ (ran ++ stop_all suffix n))
    else case_panicked (create_network n ∷ ran)

abbrev run_case : CaseRun → Str → Str → Bool → List Command → CaseEnd
run_case run suffix n ssh commands = elim (detect_container_runtime run.info_ok run.cached) [
  | none ↦ case_no_runtime
  | some runtime ↦
      if images_exist run.listed image_list
      then run_containers run suffix n ssh commands
      else case_no_images
]

unfoldable pub run_basic_test : CaseRun → CaseParams → CaseEnd
run_basic_test run p = run_case run [] (codes "sshole-test") run.ssh (basic_containers p)

unfoldable pub run_auth_test : CaseRun → CaseParams → CaseEnd
run_auth_test run p =
    run_case run (codes "-auth") (codes "sshole-auth-test") true (auth_containers p)

pub data Cases : Type 0 where
  run_basic run_auth run_both unknown_case : Cases

-- The switch of E2e.
unfoldable pub select_cases : Str → Cases
select_cases name =
    if name == []
    then run_both
    else if name == codes "basic"
    then run_basic
    else if name == codes "auth"
    then run_auth
    else unknown_case
