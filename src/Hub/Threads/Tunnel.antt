-- ===== src/Hub/Threads/Tunnel.antt =====
-- The stretches of handleTunnelWS, waitForAgentAndForward and the copy loops.
use sshole.Base.{
  Option, Bool, true, false, none, some, [], ◌∷◌, if◌then◌else◌, Str, ◌==◌, str_eq, is_none,
}
use sshole.Base.Text.{codes}
use sshole.Base.Dict.{lookup}
use sshole.Common.{err_session_mismatch, err_text}
use sshole.Hub.State.{
  Ref, Conn, Hub, Outcome, returned, panicked, emit, close_ws, go_watch_pending, go_wait_for_agent,
  internal_error, pending_closed, pending_timeout,
}
use sshole.Hub.AgentWs.{Request, stop, continue}
use sshole.Hub.AgentWs
use sshole.Hub.Sessions.{
  insert_pending, send_open, cleanup_pending, mark_open_sent, bind_tunnel, BindResult, bind_error,
  bound, bind_error_text, is_bound,
}
use sshole.Hub.Forward.{
  Forwarding, cleanup, start_forwarding, start_websocket_forwarding, timer_fired, tick,
}
use sshole.Hub.TunnelWs.{
  check_tunnel_request, session_of_request, refuse, bind_entry_session, entry_session,
}
use sshole.Hub.Threads.{
  TunnelPoint, tunnel_start, tunnel_checked, tunnel_accepted, tunnel_named, join, bound_to,
  entry_found, entry_pending, entry_unsent, entry_sent, WaitPoint, waiting, wait_expired, Input,
  Moved, goes, ends, watch, wait, copies, watching,
}

-- bindTunnel, in the branch of an SSH client's session.
abbrev pub after_bind : Str → Conn → BindResult → Hub → Outcome (Moved TunnelPoint)
after_bind agent ws (bind_error code sid) h = ends [] (refuse ws (bind_error_text code sid) h)
after_bind agent ws (bound r h₁) h = goes (bound_to agent ws r) h₁

abbrev pub after_forwarding : Outcome (Option Forwarding × Hub) → Outcome (Moved TunnelPoint)
after_forwarding panicked = panicked
after_forwarding (returned (f, h)) = ends (copies f ∷ []) h

abbrev pub after_entry_open : Str → Conn → Ref → Outcome (Hub × Bool) → Outcome (Moved TunnelPoint)
after_entry_open sid ws r panicked = panicked
after_entry_open sid ws r (returned (h, true)) = goes (entry_sent sid ws r) h
after_entry_open sid ws r (returned (h, false)) = goes (entry_unsent sid ws) h

abbrev pub after_check : Request → AgentWs.Step Ref → Outcome (Moved TunnelPoint)
after_check r (stop h) = ends [] h
after_check r (continue a h) = goes (tunnel_checked r a) h

abbrev pub after_name : Str → Conn → Ref → AgentWs.Step Str → Outcome (Moved TunnelPoint)
after_name agent ws a (stop h) = ends [] h
after_name agent ws a (continue sid h) = goes (tunnel_named agent sid ws a) h

module _ (sum256 : Str → Str) where
  unfoldable pub advance_tunnel : Input → TunnelPoint → Hub → Outcome (Moved TunnelPoint)
  advance_tunnel x (tunnel_start request) h = after_check request (check_tunnel_request request h)
  advance_tunnel x (tunnel_checked request a) h = elim x.accepted [
    | none ↦ ends [] h
    | some ws ↦ goes (tunnel_accepted request a ws) h
  ]
  advance_tunnel x (tunnel_accepted request a ws) h =
      after_name request.x_agent ws a (session_of_request sum256 request ws x.read h)
  advance_tunnel x (tunnel_named agent sid ws a) h = elim (lookup sid h.pending) [
    | some r ↦ goes (join agent sid ws r) h
    | none ↦ goes (entry_found agent sid ws a) h
  ]
  advance_tunnel x (join agent sid ws r) h =
      if is_none (h.session_at r).entry_ws
      then after_bind agent ws (bind_tunnel sid ws h) h
      else ends [] (bind_entry_session r ws h)
  advance_tunnel x (bound_to agent ws r) h =
      if (h.session_at r).agent_name == agent
      then after_forwarding (start_forwarding r h)
      else ends [] (refuse ws (err_text err_session_mismatch) h)
  advance_tunnel x (entry_found agent sid ws a) h =
      goes (entry_pending sid ws h.next_session a)
        (insert_pending (entry_session sid agent ws x.now h) h)
  advance_tunnel x (entry_pending sid ws r a) h =
      after_entry_open sid ws r (send_open (h.agent_at a).control sid x.written h)
  advance_tunnel x (entry_unsent sid ws) h = ends [] (
      emit (close_ws ws internal_error (codes "failed to open session"))
        (cleanup_pending sid pending_closed h))
  advance_tunnel x (entry_sent sid ws r) h =
      ends (wait (waiting sid ws) ∷ watch (watching sid) ∷ [])
        (emit (go_watch_pending sid) (emit (go_wait_for_agent sid ws) (mark_open_sent r h)))

-- The tick of the loop where the session is found.
unfoldable pub wait_tick : Str → Conn → Ref → Hub → Outcome (Moved WaitPoint)
wait_tick sid entry r h = elim (h.session_at r).tunnel [
  | none ↦ goes (waiting sid entry) h
  | some ws ↦
      if is_bound (h.session_at r).state
      then (let (f, h') = start_websocket_forwarding entry ws h in ends (copies (some f) ∷ []) h')
      else goes (waiting sid entry) h
]

unfoldable pub advance_wait : Input → WaitPoint → Hub → Outcome (Moved WaitPoint)
unfolding wait_tick
advance_wait x (waiting sid entry) h = elim x.event [
  | timer_fired ↦
      goes (wait_expired sid)
        (emit (close_ws entry internal_error (codes "timeout waiting for agent")) h)
  | tick ↦ elim (lookup sid h.pending) [
    | none ↦ ends [] (emit (close_ws entry internal_error (codes "session error")) h)
    | some r ↦ wait_tick sid entry r h
  ]
]
advance_wait x (wait_expired sid) h = ends [] (cleanup_pending sid pending_timeout h)

-- One of the two loops ends. The first leaves the other one, on connections that are closed.
abbrev pub after_cleanup : Bool → Forwarding × Hub → Outcome (Moved (Option Forwarding))
after_cleanup true (f, h) = ends [] h
after_cleanup false (f, h) = goes (some f) h

-- On a nil connection the first read dereferences it.
unfoldable pub advance_copies : Option Forwarding → Hub → Outcome (Moved (Option Forwarding))
advance_copies none h = panicked
advance_copies (some f) h = after_cleanup f.closed (cleanup f h)
