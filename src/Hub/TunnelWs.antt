-- ===== src/Hub/TunnelWs.antt =====
-- pkg/hub/tunnel_ws.go.
pub mod Laws
use sshole.Base.{
  ℕ, ◌+◌, ◌≡◌, Bool, true, false, Option, none, some, List, [], ◌∷◌, Str, ◌==◌, nat_eq, str_eq,
  if◌then◌else◌, not, is_none, length, drop,
}
use sshole.Base.Text.{codes}
use sshole.Base.Dict.{lookup}
use sshole.Common.{err_session_mismatch, err_text}
use sshole.Tunnel.Hex.{encode}
use sshole.Tunnel.Handshake.{
  ReadResult, read_failed, frame, text, binary, handshake_size, handshake_magic_size,
  read_handshake,
}
use sshole.Hub.State.{
  Ref, Conn, Hub, PendingSession, Effect, close_ws, http_error, go_watch_pending, go_wait_for_agent,
  policy_violation, internal_error, pending_init, pending_bound, pending_closed, emit, set_session,
  Outcome, returned, panicked,
}
use sshole.Hub.Auth.{authorized}
use sshole.Hub.AgentWs.{Request, Step, stop, continue}
use sshole.Hub.Sessions.{
  send_open, cleanup_pending, mark_open_sent, insert_pending, bind_tunnel, BindResult, bind_error,
  bound, bind_error_text,
}
use sshole.Hub.Forward
use sshole.Hub.Forward.{start_forwarding}

-- The tests before the upgrade; what goes on is the agent's pointer.
unfoldable pub check_tunnel_request : Request → Hub → Step Ref
check_tunnel_request r h =
    if r.x_agent == []
    then stop (emit (http_error 400 (codes "missing X-Agent header")) h)
    else if not (authorized h.cfg r.authorization)
    then stop (emit (http_error 401 (codes "unauthorized")) h)
    else elim (lookup r.x_agent h.agents) [
      | none ↦ stop (emit (http_error 403 (codes "unknown agent")) h)
      | some a ↦ continue a h
    ]

abbrev pub refuse : Conn → Str → Hub → Hub
refuse ws reason h = emit (close_ws ws policy_violation reason) h

-- The first frame where the header names no session: the session is read from it.
unfoldable pub session_of_frame : Conn → ReadResult → Hub → Step Str
session_of_frame ws read_failed h = stop (refuse ws (codes "handshake failed") h)
session_of_frame ws (frame text payload) h = stop (refuse ws (codes "expected binary handshake") h)
session_of_frame ws (frame binary payload) h =
    if not (length payload == handshake_size)
    then stop (refuse ws (codes "invalid handshake size") h)
    else continue (encode (drop handshake_magic_size payload)) h

-- The branch for a session that is pending: `r` is its pointer.
-- `go_forward` is the outcome of startForwarding.
abbrev pub forwarded : Outcome (Option Forward.Forwarding × Hub) → Outcome Hub
forwarded panicked = panicked
forwarded (returned (f, h)) = returned h

abbrev pub finish_bind : Str → Conn → BindResult → Hub → Outcome Hub
finish_bind agent ws (bind_error code sid) h = returned (refuse ws (bind_error_text code sid) h)
finish_bind agent ws (bound r h₁) h =
    if (h₁.session_at r).agent_name == agent
    then forwarded (start_forwarding r h₁)
    else returned (refuse ws (err_text err_session_mismatch) h₁)

-- The locked block that binds an agent's tunnel to a session that an entry began.
unfoldable pub bind_entry_session : Ref → Conn → Hub → Hub
bind_entry_session r ws h =
    set_session r (record (h.session_at r) { tunnel = some ws; state = pending_bound }) h

unfoldable pub join_session : Str → Str → Conn → Ref → Hub → Outcome Hub
join_session agent sid ws r h =
    if is_none (h.session_at r).entry_ws
    then finish_bind agent ws (bind_tunnel sid ws h) h
    else returned (bind_entry_session r ws h)

abbrev pub entry_session : Str → Str → Conn → ℕ → Hub → PendingSession
entry_session sid agent ws now h = record {
  session_id = sid;
  agent_name = agent;
  ssh_conn = none;
  entry_ws = some ws;
  state = pending_init;
  created_at = now;
  deadline = now + h.cfg.pending_timeout;
  tunnel = none;
}

-- What follows sendOpen for an entry's session.
unfoldable pub entry_after_send : Ref → Str → Conn → Outcome (Hub × Bool) → Outcome Hub
unfolding cleanup_pending mark_open_sent
entry_after_send r sid ws panicked = panicked
entry_after_send r sid ws (returned (h, false)) = returned (
    emit (close_ws ws internal_error (codes "failed to open session"))
      (cleanup_pending sid pending_closed h))
entry_after_send r sid ws (returned (h, true)) =
    returned (emit (go_watch_pending sid) (emit (go_wait_for_agent sid ws) (mark_open_sent r h)))

-- The branch for an entry: a new session, and OPEN to the agent at `a`.
unfoldable pub begin_session : Str → Str → Conn → Ref → ℕ → Bool → Hub → Outcome Hub
begin_session agent sid ws a now written h =
    let h₁ = insert_pending (entry_session sid agent ws now h) h in
    entry_after_send h.next_session sid ws (send_open (h₁.agent_at a).control sid written h₁)

-- The end of the handler, once the session's id is known.
unfoldable pub route_tunnel : Str → Str → Conn → Ref → ℕ → Bool → Hub → Outcome Hub
route_tunnel agent sid ws a now written h = elim (lookup sid h.pending) [
  | some r ↦ join_session agent sid ws r h
  | none ↦ begin_session agent sid ws a now written h
]

-- What the environment answers during one run of the handler.
pub record TunnelRun : Type 0 where
  pub accepted : Option Conn
  pub first_read : ReadResult
  pub now : ℕ
  pub written : Bool

module _ (sum256 : Str → Str) where
  -- The first frame where the header names the session.
  unfoldable pub session_of_header : Conn → Str → ReadResult → Hub → Step Str
  session_of_header ws sid read h = elim (read_handshake sum256 read sid) [
    | none ↦ continue sid h
    | some e ↦ stop (refuse ws (codes "handshake failed") h)
  ]

  unfoldable pub session_of_request : Request → Conn → ReadResult → Hub → Step Str
  session_of_request r ws read h =
      if r.x_session == []
      then session_of_frame ws read h
      else session_of_header ws r.x_session read h

  -- handleTunnelWS where nothing runs in between.
  unfoldable pub handle_tunnel_ws : Request → TunnelRun → Hub → Outcome Hub
  handle_tunnel_ws r run h = elim (check_tunnel_request r h) [
    | stop h₁ ↦ returned h₁
    | continue a h₁ ↦ elim run.accepted [
      | none ↦ returned h₁
      | some ws ↦ elim (session_of_request r ws run.first_read h₁) [
        | stop h₂ ↦ returned h₂
        | continue sid h₂ ↦ route_tunnel r.x_agent sid ws a run.now run.written h₂
      ]
    ]
  ]
