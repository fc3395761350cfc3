-- ===== src/Hub/TunnelWs/Laws.antt =====
-- What a tunnel request does, by who sends it and when.
use sshole.Base.{
  ℕ, ◌≡◌, refl, ◌≢◌, Bool, true, false, none, some, [], Str, arith, str_eq, nat_eq, length, All,
  drop, ap,
}
use sshole.Base.Text.{codes}
use sshole.Base.Dict.{lookup, lookup-insert}
use sshole.Common.{err_duplicate_tunnel, err_session_mismatch, err_text}
use sshole.Tunnel.Hex.{encode, IsLowerHex}
use sshole.Tunnel.Handshake.{
  frame, binary, build_handshake, handshake_size, handshake_magic_size, without_dashes,
  send_handshake,
}
use sshole.Hub.State.{
  Ref, Conn, Hub, pending_open_sent, pending_bound, pending_closed, close_conn, http_error, forward,
  emit, set_session, returned, panicked, go_watch_pending, go_wait_for_agent, send_control,
}
use sshole.Hub.Auth.{authorized}
use sshole.Hub.AgentWs.{Request, continue}
use sshole.Hub.Sessions.{
  bind_tunnel, bind_error, insert_pending, mark_open_sent, watch_pending_timeout, timeout_check,
  send_open, open_message,
}
use sshole.Hub.Forward.{Forwarding, start_forwarding, cleanup, wait_round, tick}
use sshole.Hub.Sessions.Laws.{cleanup_pending_lem}
use sshole.Tunnel.Handshake.Laws.{
  read_handshake-send_handshake, length-build_handshake, build_handshake_parts,
  encode-session_id_to_16_bytes,
}
use sshole.Hub.TunnelWs
use sshole.Hub.TunnelWs.{
  TunnelRun, check_tunnel_request, join_session, bind_entry_session, entry_session, begin_session,
  route_tunnel, session_of_frame, session_of_request, session_of_header, handle_tunnel_ws, refuse,
}

-- A request without the hub's token gets 401 and changes nothing else.
pub handle_tunnel_ws_unauthorized :
    (sum256 : Str → Str) (r : Request) (run : TunnelRun) (h : Hub)
    → r.x_agent ≢ []
    → authorized h.cfg r.authorization ≡ false
    → handle_tunnel_ws sum256 r run h ≡ returned (emit (http_error 401 (codes "unauthorized")) h)
unfolding handle_tunnel_ws check_tunnel_request
handle_tunnel_ws_unauthorized sum256 r run h named refused = ground arith

-- The agent's tunnel for a session that waits in OPEN_SENT: the session is bound to it, and bytes
-- are forwarded between the SSH client and this tunnel.
pub join_session_forwards :
    (agent sid : Str) (ws conn : Conn) (r : Ref) (h : Hub)
    → lookup sid h.pending ≡ some r
    → (h.session_at r).state ≡ pending_open_sent
    → (h.session_at r).tunnel ≡ none
    → (h.session_at r).entry_ws ≡ none
    → (h.session_at r).ssh_conn ≡ some conn
    → (h.session_at r).agent_name ≡ agent
    → join_session agent sid ws r h
      ≡ returned (
          emit
            (forward conn ws)
            (set_session r (record (h.session_at r) { tunnel = some ws; state = pending_bound }) h))
unfolding join_session bind_tunnel start_forwarding
join_session_forwards agent sid ws conn r h found sent fresh ssh client mine = ground arith

-- A tunnel of another agent for such a session is closed as a mismatch, but the session stays bound
-- to it: the session's watcher then leaves it pending for good, and the right agent's tunnel is
-- refused as a duplicate.
pub join_session_mismatch :
    (agent sid : Str) (ws : Conn) (r : Ref) (h : Hub)
    → lookup sid h.pending ≡ some r
    → (h.session_at r).state ≡ pending_open_sent
    → (h.session_at r).tunnel ≡ none
    → (h.session_at r).entry_ws ≡ none
    → (h.session_at r).agent_name ≢ agent
    → (h' : Hub) × (join_session agent sid ws r h
        ≡ returned (refuse ws (err_text err_session_mismatch) h'))
      × (lookup sid h'.pending ≡ some r)
      × (watch_pending_timeout sid h' ≡ h')
      × ((other : Conn) → bind_tunnel sid other h' ≡ bind_error err_duplicate_tunnel sid)
unfolding join_session bind_tunnel watch_pending_timeout timeout_check
join_session_mismatch agent sid ws r h found sent fresh ssh other = (
  set_session r (record (h.session_at r) { tunnel = some ws; state = pending_bound }) h,
  ground arith,
  ground arith,
  ground arith,
  λ later. ground arith,
)

-- An entry's request for an agent that is known but offline makes the handler dereference nil, after
-- the session went into the map, and so before anything is sent or watched.
pub begin_session_offline :
    (agent sid : Str) (ws : Conn) (a : Ref) (now : ℕ) (written : Bool) (h : Hub)
    → (h.agent_at a).control ≡ none
    → begin_session agent sid ws a now written h ≡ panicked
unfolding begin_session send_open TunnelWs.entry_after_send
begin_session_offline agent sid ws a now written h offline = ground arith

-- For an agent that is online and gets the message, an entry's request leaves a pending session in
-- the state OPEN_SENT that remembers the entry's websocket.
pub begin_session_online :
    (agent sid : Str) (ws : Conn) (a : Ref) (now : ℕ) (h : Hub) {c : Conn}
    → (h.agent_at a).control ≡ some c
    → (h' : Hub) × (begin_session agent sid ws a now true h ≡ returned h')
      × (lookup sid h'.pending ≡ some h.next_session)
      × (h'.session_at h.next_session
          ≡ record (entry_session sid agent ws now h) { state = pending_open_sent })
      × (h'.agents ≡ h.agents)
      × (h'.cfg ≡ h.cfg)
unfolding begin_session send_open TunnelWs.entry_after_send
begin_session_online agent sid ws a now h {c} online = (
  emit (go_watch_pending sid) (
      emit (go_wait_for_agent sid ws) (
        mark_open_sent h.next_session (
          emit (send_control c (open_message sid))
            (insert_pending (entry_session sid agent ws now h) h)))),
  ground arith,
  ground (arith, lookup-insert sid sid h.next_session h.pending),
  ground arith,
  refl,
  refl,
)

-- The same for the whole handler: an authorised request with a good handshake panics.
pub handle_tunnel_ws_offline :
    (sum256 : Str → Str) (r : Request) (ws : Conn) (a : Ref) (now : ℕ) (written : Bool) (h : Hub)
    → r.x_agent ≢ []
    → r.x_session ≢ []
    → authorized h.cfg r.authorization ≡ true
    → lookup r.x_agent h.agents ≡ some a
    → (h.agent_at a).control ≡ none
    → lookup r.x_session h.pending ≡ none
    → handle_tunnel_ws sum256 r
        (record {
          accepted = some ws;
          first_read = frame binary (build_handshake sum256 r.x_session);
          now = now;
          written = written;
        })
        h
      ≡ panicked
unfolding handle_tunnel_ws check_tunnel_request session_of_request session_of_header route_tunnel
    send_handshake
handle_tunnel_ws_offline sum256 r ws a now written h named with_session allowed found offline new =
    ground (
      arith,
      (read_handshake-send_handshake sum256 r.x_session r.x_session).1 refl,
      begin_session_offline r.x_agent r.x_session ws a now written h offline,
    )

-- An agent that dials back before the hub has recorded that OPEN was sent loses its binding: the
-- late write sets the state back, the entry's loop goes round, and the watcher will time out.
pub entry_binding_lost :
    (agent sid : Str) (entry ws : Conn) (now : ℕ) (h : Hub)
    → let r = h.next_session in
      let h' =
        mark_open_sent r
          (bind_entry_session r ws (insert_pending (entry_session sid agent entry now h) h)) in
      (wait_round sid entry tick h' ≡ none) × (timeout_check sid h' ≡ true)
unfolding mark_open_sent bind_entry_session wait_round timeout_check
entry_binding_lost agent sid entry ws now h = (
  ground (arith, lookup-insert sid sid h.next_session h.pending),
  ground (arith, lookup-insert sid sid h.next_session h.pending),
)

-- In the other order the entry is connected to the agent's tunnel at the next tick.
pub entry_binding_kept :
    (agent sid : Str) (entry ws : Conn) (now : ℕ) (h : Hub)
    → let r = h.next_session in
      let h' =
        bind_entry_session r ws
          (mark_open_sent r (insert_pending (entry_session sid agent entry now h) h)) in
      wait_round sid entry tick h' ≡ some (emit (forward entry ws) h')
unfolding mark_open_sent bind_entry_session wait_round
entry_binding_kept agent sid entry ws now h =
    ground (arith, lookup-insert sid sid h.next_session h.pending)

-- The end of an SSH session's forwarding, which runs once, takes the session out of the map.
pub cleanup_removes :
    (f : Forwarding) (sid : Str) (h : Hub)
    → f.closed ≡ false
    → f.session ≡ some sid
    → (lookup sid (cleanup f h).1.pending ≡ none)
      × ((h' : Hub) → (cleanup (cleanup f h).0 h').1 ≡ h')
unfolding cleanup
cleanup_removes f sid h first ssh =
    let closing = emit (close_conn f.right) (emit (close_conn f.left) h) in
    (ground (arith, cleanup_pending_lem sid sid pending_closed closing), λ h'. ground arith)

-- Without a header the hub reads the session from the frame: it takes any frame of 24 bytes, whatever
-- its magic, and for an id of 32 lower-case hexadecimal digits it finds the id without its dashes.
pub session_of_frame_lem :
    (sum256 : Str → Str) (ws : Conn) (payload sid : Str) (h : Hub)
    → length payload ≡ handshake_size
    → length (without_dashes sid) ≡ 32
    → All IsLowerHex (without_dashes sid)
    → (session_of_frame ws (frame binary payload) h
        ≡ continue (encode (drop handshake_magic_size payload)) h)
      × (session_of_frame ws (frame binary (build_handshake sum256 sid)) h
          ≡ continue (without_dashes sid) h)
unfolding session_of_frame
session_of_frame_lem sum256 ws payload sid h size digits lower = (
  ground arith,
  ground (
    arith,
    length-build_handshake sum256 sid,
    ap (drop handshake_magic_size) (build_handshake_parts sum256 sid),
    encode-session_id_to_16_bytes sum256 sid digits lower,
  ),
)
