-- ===== src/Entry/Start.antt =====
-- Start and testSSHConnectivity of pkg/entry/entry.go.
use sshole.Base.{
  ℕ, Bool, false, Option, none, some, List, [], ◌∷◌, ◌++◌, Str, ◌==◌, str_eq, nat_eq, if◌then◌else◌,
  not,
}
use sshole.Base.Text.{codes, has_prefix}
use sshole.Hub.State.{Conn}
use sshole.Hub.Rpc.{AgentInfo, AppendKnownHostRequest}
use sshole.Entry.Pick.{EntryConfig, PickResult, picked, append_request}

pub data StartStep : Type 0 where
  call_append_known_host : AppendKnownHostRequest → StartStep
  call_ensure_known_host : ℕ → StartStep
  listen_on : ℕ → StartStep
  go_test_connectivity : StartStep
  go_handle_conn : Conn → ℕ → StartStep

pub data StartResult : Type 0 where
  pick_error : PickResult → StartResult
  listen_error accept_error : StartResult
  still_accepting : StartResult

-- The loop of Accept, over the connections to come; `none` is an error.
accept_loop : ℕ → List (Option Conn) → List StartStep × StartResult
accept_loop port [] = ([], still_accepting)
accept_loop port (none ∷ rest) = ([], accept_error)
accept_loop port (some c ∷ rest) =
    let (steps, result) = accept_loop port rest in (go_handle_conn c port ∷ steps, result)

-- A key that cannot be read is only logged, and so are the failures of the two calls.
abbrev key_steps : EntryConfig → AgentInfo → Option Str → List StartStep
key_steps cfg agent none = []
key_steps cfg agent (some key) =
    call_append_known_host (append_request agent.agent_name key)
    ∷ call_ensure_known_host cfg.entry_port
    ∷ []

serve : EntryConfig → AgentInfo → Bool → List (Option Conn) → List StartStep × StartResult
unfolding accept_loop
serve cfg agent listening conns =
    if not listening
    then (listen_on cfg.entry_port ∷ [], listen_error)
    else let (steps, result) = accept_loop agent.hub_port conns in
      (listen_on cfg.entry_port ∷ go_test_connectivity ∷ steps, result)

unfoldable pub start :
    EntryConfig → PickResult → Option Str → Bool → List (Option Conn) → List StartStep × StartResult
unfolding serve
start cfg (picked agent) key listening conns =
    let (steps, result) = serve cfg agent listening conns in
    (key_steps cfg agent key ++ steps, result)
start cfg failure key listening conns = ([], pick_error failure)

-- How testSSHConnectivity ends.
pub data Connectivity : Type 0 where
  connected dial_failed session_failed command_failed : Connectivity

-- Whether the client offers a key: the path is set, the home directory is known where the path needs
-- it, and the key is read and parsed.
unfoldable pub offers_key : EntryConfig → Bool → Bool → Bool → Bool
offers_key cfg home_known read parsed =
    if cfg.private_key_path == []
    then false
    else if has_prefix cfg.private_key_path (codes "~")
    then (if home_known then (if read then parsed else false) else false)
    else if read
    then parsed
    else false

unfoldable pub test_ssh_connectivity : Bool → Bool → Bool → Connectivity
test_ssh_connectivity dialled session_made command_ran =
    if not dialled
    then dial_failed
    else if not session_made
    then session_failed
    else if command_ran
    then connected
    else command_failed
