-- ===== src/Hub/Sessions.antt =====
-- The pending sessions of pkg/hub/hub.go. Each function is one stretch of code that holds the lock,
-- or a chain of such stretches; what a websocket or a timer answers is an argument.
pub mod Laws
use sshole.Base.{
  ℕ, ◌+◌, ◌≡◌, Bool, true, false, ◌&&◌, ◌||◌, Option, none, some, List, [], ◌∷◌, ◌++◌, Str, ◌==◌,
  str_eq, if◌then◌else◌, not, is_none,
}
use sshole.Base.Text.{codes}
use sshole.Base.Dict.{lookup, insert, erase, update}
use sshole.Common.{ErrCode, err_session_not_found, err_duplicate_tunnel, err_text, ControlMessage}
use sshole.Hub.State.{
  Ref, Conn, PendingState, pending_init, pending_open_sent, pending_bound, pending_timeout,
  pending_closed, PendingSession, AgentState, Hub, Effect, close_conn, close_ws, send_control,
  forward, go_watch_pending, normal_closure, internal_error, emit, new_session, set_session,
  Outcome, returned, panicked,
}

abbrev pub is_open_sent : PendingState → Bool
is_open_sent pending_open_sent = true
is_open_sent _ = false

abbrev pub is_bound : PendingState → Bool
is_bound pending_bound = true
is_bound _ = false

abbrev pub is_closed : PendingState → Bool
is_closed pending_closed = true
is_closed _ = false

-- The control message that opens a session.
abbrev pub open_message : Str → ControlMessage
open_message sid = record { type = codes "OPEN"; session_id = sid; known_host = [] }

-- sendOpen: `conn` is nil where the agent is offline, and a write to it takes its lock, which
-- dereferences nil. `written` is the success of the websocket's write.
unfoldable pub send_open : Option Conn → Str → Bool → Hub → Outcome (Hub × Bool)
send_open none sid written h = panicked
send_open (some c) sid written h =
    if written
    then returned (emit (send_control c (open_message sid)) h, true)
    else returned (h, false)

abbrev pub close_ssh : Option Conn → Hub → Hub
close_ssh none h = h
close_ssh (some c) h = emit (close_conn c) h

abbrev pub close_tunnel : Option Conn → Hub → Hub
close_tunnel none h = h
close_tunnel (some ws) h = emit (close_ws ws normal_closure (codes "closed")) h

-- The body of cleanupPending where the session is found.
abbrev drop_session : Ref → Str → PendingState → Hub → Hub
drop_session r sid new_state h =
    let p = h.session_at r in
    let h₁ = set_session r (record p { state = new_state }) h in
    let h₂ = close_tunnel p.tunnel (close_ssh p.ssh_conn h₁) in
    record h₂ { pending = erase sid h₂.pending }

unfoldable pub cleanup_pending : Str → PendingState → Hub → Hub
cleanup_pending sid new_state h = elim (lookup sid h.pending) [
  | none ↦ h
  | some r ↦ drop_session r sid new_state h
]

-- onSSHConn up to the check that the agent is online: the agent's pointer.
unfoldable pub ssh_lookup : Str → Hub → Option Ref
ssh_lookup agent h = elim (lookup agent h.agents) [
  | none ↦ none
  | some r ↦ if is_none (h.agent_at r).control then none else some r
]

-- `h.pending[sessionID] = p`
abbrev pub insert_pending : PendingSession → Hub → Hub
insert_pending p h =
    let h₁ = new_session p h in
    record h₁ { pending = insert p.session_id h.next_session h₁.pending }

abbrev pub ssh_session : Str → Str → Conn → ℕ → Hub → PendingSession
ssh_session sid agent conn now h = record {
  session_id = sid;
  agent_name = agent;
  ssh_conn = some conn;
  entry_ws = none;
  state = pending_init;
  created_at = now;
  deadline = now + h.cfg.pending_timeout;
  tunnel = none;
}

-- `p.State = PendingOPEN_SENT`, whatever the state is by then.
unfoldable pub mark_open_sent : Ref → Hub → Hub
mark_open_sent r h = set_session r (record (h.session_at r) { state = pending_open_sent }) h

-- What follows sendOpen in onSSHConn.
unfoldable pub ssh_after_send : Ref → Str → Outcome (Hub × Bool) → Outcome Hub
unfolding cleanup_pending mark_open_sent
ssh_after_send r sid panicked = panicked
ssh_after_send r sid (returned (h, false)) = returned (cleanup_pending sid pending_closed h)
ssh_after_send r sid (returned (h, true)) =
    returned (emit (go_watch_pending sid) (mark_open_sent r h))

-- onSSHConn where nothing runs in between. `sid` is the new UUID.
unfoldable pub on_ssh_conn : Str → Conn → Str → ℕ → Bool → Hub → Outcome Hub
on_ssh_conn agent conn sid now written h = elim (ssh_lookup agent h) [
  | none ↦ returned (emit (close_conn conn) h)
  | some a ↦
      let h₁ = insert_pending (ssh_session sid agent conn now h) h in
      ssh_after_send h.next_session sid (send_open (h₁.agent_at a).control sid written h₁)
]

-- watchPendingTimeout when its timer fires: first the check, then the cleanup, under two locks.
unfoldable pub timeout_check : Str → Hub → Bool
timeout_check sid h = elim (lookup sid h.pending) [
  | none ↦ false
  | some r ↦ not (is_bound (h.session_at r).state || is_closed (h.session_at r).state)
]

unfoldable pub watch_pending_timeout : Str → Hub → Hub
unfolding timeout_check cleanup_pending
watch_pending_timeout sid h =
    if timeout_check sid h then cleanup_pending sid pending_timeout h else h

pub data BindResult : Type 0 where
  bind_error : ErrCode → Str → BindResult
  bound : Ref → Hub → BindResult

-- `fmt.Errorf("%s: %s", code, sid)`
abbrev pub bind_error_text : ErrCode → Str → Str
bind_error_text code sid = err_text code ++ codes ": " ++ sid

unfoldable pub bind_tunnel : Str → Conn → Hub → BindResult
bind_tunnel sid ws h = elim (lookup sid h.pending) [
  | none ↦ bind_error err_session_not_found sid
  | some r ↦
      let p = h.session_at r in
      if not (is_open_sent p.state) || not (is_none p.tunnel)
      then bind_error err_duplicate_tunnel sid
      else bound r (set_session r (record p { tunnel = some ws; state = pending_bound }) h)
]
