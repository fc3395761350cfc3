-- ===== src/Hub/State.antt =====
-- The state of the hub (pkg/hub/hub.go, session.go, config.go). Pointers are references into two
-- stores, connections are numbers, and what the hub does to the outside is a trace, newest first.
use sshole.Base.{ℕ, ◌+◌, Bool, Option, none, List, [], ◌∷◌, Str}
use sshole.Base.Dict.{Dict, Store, update}
use sshole.Common.{ControlMessage}

-- A pointer, and a network or websocket connection.
abbrev pub Ref : Type 0
Ref = ℕ

abbrev pub Conn : Type 0
Conn = ℕ

pub data PendingState : Type 0 where
  pending_init pending_open_sent pending_bound pending_timeout pending_closed : PendingState

pub record PendingSession : Type 0 where
  pub session_id : Str
  pub agent_name : Str
  pub ssh_conn : Option Conn
  pub entry_ws : Option Conn
  pub state : PendingState
  pub created_at : ℕ
  pub deadline : ℕ
  pub tunnel : Option Conn

-- `Control` wraps a websocket with a lock; it is known by its websocket.
pub record AgentState : Type 0 where
  pub name : Str
  pub control : Option Conn
  pub hub_port : ℕ
  pub connected_at : ℕ

pub record DirEntry : Type 0 where
  pub entry_name : Str
  pub is_dir : Bool

-- What `fs.ReadDir(BinsFS, ".")` finds.
pub data BinsFs : Type 0 where
  no_fs unreadable_fs : BinsFs
  entries : List DirEntry → BinsFs

pub record HubConfig : Type 0 where
  pub auth_token : Str
  pub http_addr : Str
  pub mapping_file : Str
  pub pending_timeout : ℕ
  pub tunnel_dial_timeout : ℕ
  pub bins_fs : BinsFs

pub data CloseStatus : Type 0 where
  normal_closure unsupported_data policy_violation internal_error : CloseStatus

pub data Effect : Type 0 where
  close_conn : Conn → Effect
  close_ws : Conn → CloseStatus → Str → Effect
  send_control : Conn → ControlMessage → Effect
  http_error : ℕ → Str → Effect
  forward : Conn → Conn → Effect
  save_agents : Dict Str ℕ → Effect
  go_watch_pending : Str → Effect
  go_wait_for_agent : Str → Conn → Effect
  go_serve_port : ℕ → Str → Effect
  go_ssh_conn : Str → Conn → Effect

pub record Hub : Type 0 where
  pub cfg : HubConfig
  pub agents : Dict Str Ref
  pub ports : Dict ℕ Str
  pub listeners : Dict ℕ Conn
  pub pending : Dict Str Ref
  pub agent_at : Store AgentState
  pub session_at : Store PendingSession
  pub next_agent : Ref
  pub next_session : Ref
  pub trace : List Effect

abbrev pub emit : Effect → Hub → Hub
emit e h = record h { trace = e ∷ h.trace }

-- `&AgentState{…}` and `&PendingSession{…}`: the new pointer is `next_agent` or `next_session`.
abbrev pub new_agent : AgentState → Hub → Hub
new_agent a h = record h {
  agent_at = update h.agent_at h.next_agent a;
  next_agent = h.next_agent + 1;
}

abbrev pub new_session : PendingSession → Hub → Hub
new_session p h = record h {
  session_at = update h.session_at h.next_session p;
  next_session = h.next_session + 1;
}

-- Writes through a pointer.
abbrev pub set_agent : Ref → AgentState → Hub → Hub
set_agent r a h = record h { agent_at = update h.agent_at r a }

abbrev pub set_session : Ref → PendingSession → Hub → Hub
set_session r p h = record h { session_at = update h.session_at r p }

-- A call that may dereference a nil pointer.
pub data Outcome {ℓ} (A : Type ℓ) : Type ℓ where
  returned : A → Outcome A
  panicked : Outcome A

abbrev pub no_agent : AgentState
no_agent = record { name = []; control = none; hub_port = 0; connected_at = 0 }

abbrev pub no_session : PendingSession
no_session = record {
  session_id = [];
  agent_name = [];
  ssh_conn = none;
  entry_ws = none;
  state = pending_init;
  created_at = 0;
  deadline = 0;
  tunnel = none;
}
