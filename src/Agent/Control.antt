-- ===== src/Agent/Control.antt =====
-- readControl and the reconnecting loop of Start in pkg/agent/agent.go. `unmarshal` is encoding/json
-- at ControlMessage.
pub mod Laws
use sshole.Base.{
  ℕ, suc, ◌+◌, ◌≡◌, Bool, true, false, ◌&&◌, Option, none, some, List, [], ◌∷◌, Str, ◌==◌, str_eq,
  if◌then◌else◌, not, leb,
}
use sshole.Base.Text.{codes}
use sshole.Common.{ControlMessage}
use sshole.Tunnel.Handshake.{ReadResult, read_failed, frame, text, binary}
use sshole.Agent.Config.{AgentConfig, retry_backoff}

-- What readControl does for a message.
pub data Action : Type 0 where
  go_open : Str → Action
  append_key : Str → Action
  close_unsupported : Action

unfoldable pub dispatch : ControlMessage → List Action → List Action
dispatch m rest =
    if m.type == codes "OPEN" && not (m.session_id == [])
    then go_open m.session_id ∷ rest
    else if m.type == codes "ADD_KNOWN_HOST" && not (m.known_host == [])
    then append_key m.known_host ∷ rest
    else rest

module _ (unmarshal : Str → Option ControlMessage) where
  -- The loop over the reads to come. It ends by an error: of the read, or of a frame that is no text.
  unfoldable pub read_control : List ReadResult → List Action
  unfolding dispatch
  read_control [] = []
  read_control (read_failed ∷ rest) = []
  read_control (frame binary payload ∷ rest) = close_unsupported ∷ []
  read_control (frame text payload ∷ rest) =
      let more = read_control rest in
      elim (unmarshal payload) [ none ↦ more | some m ↦ dispatch m more ]

-- One round of Start: connectControl fails, or a control connection lives and ends.
pub data Round : Type 0 where
  connect_failed : Round
  connected : List ReadResult → Round

-- What Start has done after the given rounds: it sleeps and serves, and returns an error or goes on.
pub data Progress : Type 0 where
  running : ℕ → Progress
  failed_after : ℕ → Progress
  slept : ℕ → Progress → Progress
  served : List ReadResult → Progress → Progress

unfoldable pub start_loop : AgentConfig → ℕ → List Round → Progress
start_loop c attempt [] = running attempt
start_loop c attempt (connect_failed ∷ rounds) =
    let again = slept (retry_backoff c (attempt + 1)) (start_loop c (attempt + 1) rounds) in
    if leb c.timeouts.agent_reconnect_max_retries (attempt + 1)
    then failed_after (attempt + 1)
    else again
start_loop c attempt (connected reads ∷ rounds) = served reads (start_loop c 0 rounds)
