-- ===== src/Agent/Control/Laws.antt =====
-- When the agent gives up, and what it makes of the hub's messages.
use sshole.Base.{
  ℕ, zero, suc, ◌+◌, ◌<◌, ◌≡◌, refl, ◌≢◌, Option, some, List, [], ◌∷◌, Str, arith, str_eq,
}
use sshole.Common.{ControlMessage}
use sshole.Hub.Sessions.{open_message}
use sshole.Hub.Rpc.{known_host_message}
use sshole.Tunnel.Handshake.{ReadResult, frame, text}
use sshole.Agent.Config.{AgentConfig, retry_backoff}
use sshole.Agent.Control.{
  go_open, append_key, dispatch, read_control, Round, connect_failed, connected, Progress,
  failed_after, slept, served, start_loop,
}

abbrev pub fails : ℕ → List Round → List Round
fails zero rounds = rounds
fails (suc n) rounds = connect_failed ∷ fails n rounds

-- The sleeps of `n` failures in a row, the first of them the failure after `attempt` others.
abbrev pub sleeps : AgentConfig → ℕ → ℕ → Progress → Progress
sleeps c attempt zero p = p
sleeps c attempt (suc n) p = slept (retry_backoff c (attempt + 1)) (sleeps c (attempt + 1) n p)

-- Fewer failures in a row than the limit are slept over, and a connection sets the count back.
pub start_loop_recovers :
    (c : AgentConfig) (n attempt : ℕ) (reads : List ReadResult) (rounds : List Round)
    → attempt + n < c.timeouts.agent_reconnect_max_retries
    → start_loop c attempt (fails n (connected reads ∷ rounds))
      ≡ sleeps c attempt n (served reads (start_loop c 0 rounds))
unfolding start_loop
start_loop_recovers c zero attempt reads rounds few = refl
start_loop_recovers c (suc n) attempt reads rounds few =
    ground (arith, start_loop_recovers c n (attempt + 1) reads rounds)

-- As many failures in a row as the limit end the agent, with that number in its error.
pub start_loop_gives_up :
    (c : AgentConfig) (n attempt : ℕ) (rounds : List Round)
    → attempt + n + 1 ≡ c.timeouts.agent_reconnect_max_retries
    → start_loop c attempt (fails (suc n) rounds)
      ≡ sleeps c attempt n (failed_after c.timeouts.agent_reconnect_max_retries)
unfolding start_loop
start_loop_gives_up c zero attempt rounds limit = ground arith
start_loop_gives_up c (suc n) attempt rounds limit =
    ground (arith, start_loop_gives_up c n (attempt + 1) rounds)

-- What the hub sends to open a session makes the agent open that session, where encoding/json reads
-- this message back as it was written.
pub read_control-open_message :
    (marshal : ControlMessage → Str) (unmarshal : Str → Option ControlMessage) (sid : Str)
    (rest : List ReadResult)
    → unmarshal (marshal (open_message sid)) ≡ some (open_message sid)
    → sid ≢ []
    → read_control unmarshal (frame text (marshal (open_message sid)) ∷ rest)
      ≡ go_open sid ∷ read_control unmarshal rest
unfolding read_control dispatch
read_control-open_message marshal unmarshal sid rest back given = ground arith

-- What the hub sends for a key makes the agent append that key, where encoding/json reads this message
-- back as it was written.
pub read_control-known_host_message :
    (marshal : ControlMessage → Str) (unmarshal : Str → Option ControlMessage) (key : Str)
    (rest : List ReadResult)
    → unmarshal (marshal (known_host_message key)) ≡ some (known_host_message key)
    → key ≢ []
    → read_control unmarshal (frame text (marshal (known_host_message key)) ∷ rest)
      ≡ append_key key ∷ read_control unmarshal rest
unfolding read_control dispatch
read_control-known_host_message marshal unmarshal key rest back given = ground arith
