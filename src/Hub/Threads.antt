-- ===== src/Hub/Threads.antt =====
-- The goroutines of pkg/hub: where each stands between two stretches of code, with the local variables
-- that are live there.
pub mod Ssh
pub mod Tunnel
pub mod Agent
pub mod System
pub mod Valid
pub mod Moves
pub mod TunnelMoves
pub mod AgentMoves
pub mod Interleaving
pub mod Alone
pub mod Checks
pub mod Care
pub mod Online
pub mod Panics
pub mod Crash
use sshole.Base.{ℕ, Bool, Option, none, some, List, [], Str}
use sshole.Tunnel.Handshake.{ReadResult}
use sshole.Hub.State.{Ref, Conn, Hub, Outcome, returned}
use sshole.Hub.AgentWs.{Request}
use sshole.Hub.Forward.{Forwarding, WaitEvent}
use sshole.Hub.Rpc.{AppendKnownHostRequest}
use sshole.Hub.Start.{AcceptEvent}

-- onSSHConn: its start, then with the agent's pointer `a`, with the session at `r` in the map, and
-- after sendOpen.
pub data SshPoint : Type 0 where
  ssh_start : (agent : Str) (conn : Conn) → SshPoint
  ssh_found : (agent : Str) (conn : Conn) (a : Ref) → SshPoint
  ssh_pending : (sid : Str) (r a : Ref) → SshPoint
  ssh_unsent : (sid : Str) → SshPoint
  ssh_sent : (sid : Str) (r : Ref) → SshPoint

-- watchPendingTimeout: before its timer, and between the check and the cleanup.
pub data WatchPoint : Type 0 where
  watching expired : (sid : Str) → WatchPoint

-- handleTunnelWS. `join` is where the session at `r` was found, `bound_to` is after bindTunnel, and the
-- last four are the branch of an entry.
pub data TunnelPoint : Type 0 where
  tunnel_start : (request : Request) → TunnelPoint
  tunnel_checked : (request : Request) (a : Ref) → TunnelPoint
  tunnel_accepted : (request : Request) (a : Ref) (ws : Conn) → TunnelPoint
  tunnel_named : (agent sid : Str) (ws : Conn) (a : Ref) → TunnelPoint
  join : (agent sid : Str) (ws : Conn) (r : Ref) → TunnelPoint
  bound_to : (agent : Str) (ws : Conn) (r : Ref) → TunnelPoint
  entry_found : (agent sid : Str) (ws : Conn) (a : Ref) → TunnelPoint
  entry_pending : (sid : Str) (ws : Conn) (r a : Ref) → TunnelPoint
  entry_unsent : (sid : Str) (ws : Conn) → TunnelPoint
  entry_sent : (sid : Str) (ws : Conn) (r : Ref) → TunnelPoint

-- waitForAgentAndForward: the select, and between the close and the cleanup.
pub data WaitPoint : Type 0 where
  waiting : (sid : Str) (entry : Conn) → WaitPoint
  wait_expired : (sid : Str) → WaitPoint

-- handleAgentWS.
pub data AgentPoint : Type 0 where
  agent_start : (request : Request) → AgentPoint
  agent_checked : (agent : Str) → AgentPoint
  agent_unknown : (agent : Str) → AgentPoint
  agent_added : (agent : Str) (port : ℕ) → AgentPoint
  agent_accepts : (agent : Str) → AgentPoint
  agent_attaches : (agent : Str) (ws : Conn) → AgentPoint
  agent_reads : (agent : Str) (ws : Conn) → AgentPoint
  agent_ends : (agent : Str) (ws : Conn) → AgentPoint

-- AppendKnownHost: its start, and after it found the agent online.
pub data KeyPoint : Type 0 where
  key_start : (request : AppendKnownHostRequest) → KeyPoint
  key_found : (key : Str) (a : Ref) → KeyPoint

-- A goroutine. `copies` are the two copy loops of a forwarding,
-- where `none` is on a nil connection, `serves` is servePort.
pub data Thread : Type 0 where
  ssh : SshPoint → Thread
  watch : WatchPoint → Thread
  tunnel : TunnelPoint → Thread
  wait : WaitPoint → Thread
  agent : AgentPoint → Thread
  key : KeyPoint → Thread
  copies : Option Forwarding → Thread
  serves : (agent : Str) → Thread

-- What the environment answers in one stretch; each stretch uses what it asks for.
pub record Input : Type 0 where
  pub written : Bool
  pub accepted : Option Conn
  pub read : ReadResult
  pub listen : Option Conn
  pub now : ℕ
  pub new_sid : Str
  pub event : WaitEvent
  pub accept : AcceptEvent
  pub marshals : Bool

-- What a stretch leaves: the hub, where the goroutine stands then, if it has not ended, and the
-- goroutines that it started.
pub record Moved (P : Type 0) : Type 0 where
  pub hub : Hub
  pub point : Option P
  pub spawned : List Thread

abbrev pub goes : {P : Type 0} → P → Hub → Outcome (Moved P)
goes p h = returned (record { hub = h; point = some p; spawned = [] })

abbrev pub ends : {P : Type 0} → List Thread → Hub → Outcome (Moved P)
ends ts h = returned (record { hub = h; point = none; spawned = ts })
