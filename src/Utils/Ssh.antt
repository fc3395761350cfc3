-- ===== src/Utils/Ssh.antt =====
-- pkg/utils/ssh.go: one command over SSH. What the library for SSH answers is an argument.
use sshole.Base.{ℕ, Bool, Str, ◌++◌, if◌then◌else◌, not}
use sshole.Base.Text.{codes, decimal, trim_space}

-- How `CombinedOutput` ends.
pub data CommandEnd : Type 0 where
  command_ok command_failed : CommandEnd
  exit_status : ℕ → CommandEnd

pub data SshError : Type 0 where
  parse_key dial_server create_session execute_command : SshError

pub data SshResult : Type 0 where
  ssh_error : SshError → SshResult
  ssh_done : Str → ℕ → SshResult

-- The address that is dialled.
unfoldable pub host_port : Str → ℕ → Str
host_port host port = host ++ (codes ":" ++ decimal port)

abbrev finished : Str → CommandEnd → SshResult
finished output command_ok = ssh_done (trim_space output) 0
finished output (exit_status n) = ssh_done (trim_space output) n
finished output command_failed = ssh_error execute_command

unfoldable pub ssh_execute : Bool → Bool → Bool → Str → CommandEnd → SshResult
ssh_execute key_parsed dialled session_made output end =
    if not key_parsed
    then ssh_error parse_key
    else if not dialled
    then ssh_error dial_server
    else if not session_made
    then ssh_error create_session
    else finished output end
