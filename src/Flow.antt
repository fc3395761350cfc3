-- ===== src/Flow.antt =====
-- An SSH connection from end to end: the hub's onSSHConn and handleTunnelWS, with the headers and the
-- handshake that the agent sends in handleOpen.
pub mod Keys
pub mod Online
use sshole.Base.{
  ℕ, ◌≡◌, refl, ◌≢◌, Bool, true, none, some, List, [], ◌∷◌, Str, arith, str_eq, ◌==◌, if◌then◌else◌,
}
use sshole.Base.Dict.{lookup, update}
use sshole.Tunnel.Handshake.{MessageType, frame, send_handshake}
use sshole.Tunnel.Handshake.Laws.{read_handshake-send_handshake}
use sshole.Hub.State.{
  Ref, Conn, Hub, pending_open_sent, pending_bound, forward, emit, set_session, returned,
}
use sshole.Hub.Auth.{authorized}
use sshole.Hub.Sessions.{on_ssh_conn, ssh_session}
use sshole.Hub.Sessions.Laws.{on_ssh_conn_online}
use sshole.Hub.TunnelWs
use sshole.Hub.TunnelWs.{TunnelRun, handle_tunnel_ws, route_tunnel, join_session}
use sshole.Hub.TunnelWs.Laws.{join_session_forwards, begin_session_online}
use sshole.Hub.AgentWs.{Request}
use sshole.Agent.Config.{AgentConfig}
use sshole.Agent.Tunnel.{OpenRun, OpenStep, handle_open, handle_open_frame, dial_hub, write_frame}
use sshole.Hub.Forward.{wait_round, tick}
use sshole.Hub.Rpc.{AgentInfo}
use sshole.Entry.Pick.{EntryConfig, picked, rpc_authorization}
use sshole.Entry.Connection
use sshole.Entry.Connection.{ConnStep, handle_conn, tunnel_request}
use sshole.Agent.Requests.{http_header, authorized-http_header}

-- For an agent that is online, a new SSH connection leaves a hub in which the agent's answer to OPEN,
-- the request and the first frame of handleOpen, is accepted where the agent has the hub's token: the
-- session is bound to the agent's tunnel, and the last effect is to forward between the two.
pub ssh_connection_forwards :
    (sum256 : Str → Str) (c : AgentConfig) (sid : Str) (conn ws control : Conn) (a : Ref)
    (now later : ℕ) (written : Bool) (h : Hub) (run : OpenRun) (r : Request) (kind : MessageType)
    (payload : Str) (rest : List OpenStep)
    → c.agent_name ≢ []
    → sid ≢ []
    → c.token ≢ []
    → h.cfg.auth_token ≡ c.token
    → lookup c.agent_name h.agents ≡ some a
    → (h.agent_at a).control ≡ some control
    → handle_open sum256 c sid run ≡ dial_hub r ∷ write_frame kind payload ∷ rest
    → (h' h'' : Hub) × (on_ssh_conn c.agent_name conn sid now true h ≡ returned h')
      × (handle_tunnel_ws sum256 r
            (record {
              accepted = some ws;
              first_read = frame kind payload;
              now = later;
              written = written;
            })
            h'
          ≡ returned h'')
      × ((h''.session_at h.next_session).state ≡ pending_bound)
      × (h''.trace ≡ forward conn ws ∷ h'.trace)
unfolding handle_tunnel_ws http_header TunnelWs.check_tunnel_request TunnelWs.session_of_request
    TunnelWs.session_of_header TunnelWs.route_tunnel
ssh_connection_forwards sum256 c sid conn ws control a now later written h run r kind payload rest
      named given with_token same_token found online opened =
    let (h', sent, waits, object, same_agents, same_cfg) =
      on_ssh_conn_online c.agent_name conn sid now h {a = a} {c = control} found online in
    let joined =
      join_session_forwards c.agent_name sid ws conn h.next_session h' waits (ground arith)
        (ground arith) (ground arith) (ground arith) (ground arith) in
    (
      h',
      emit (forward conn ws) (
          set_session h.next_session
            (record (h'.session_at h.next_session) { tunnel = some ws; state = pending_bound }) h'),
      sent,
      ground (
        arith,
        joined,
        handle_open_frame sum256 c sid run r kind payload rest opened,
        (read_handshake-send_handshake sum256 sid sid).1 refl,
        (authorized-http_header h'.cfg c.token c.agent_name sid (ground arith) with_token).1
            (ground arith),
      ),
      ground arith,
      refl,
    )

-- The request and the first frame of the entry's handleConn.
handle_conn_frame :
    (sum256 : Str → Str) (cfg : EntryConfig) (sid : Str) (info : AgentInfo) (dialled wrote : Bool)
    (url : Str) (r : Request) (kind : MessageType) (payload : Str) (rest : List ConnStep)
    → handle_conn sum256 cfg sid (picked info) dialled wrote
      ≡ Connection.dial_hub url r ∷ Connection.write_frame kind payload ∷ rest
    → (r ≡ tunnel_request cfg info.agent_name sid) × ((kind, payload) ≡ send_handshake sum256 sid)
unfolding handle_conn
handle_conn_frame sum256 cfg sid info dialled wrote url r kind payload rest e = ground arith

-- A request with the hub's token and the frame of its session goes to the session's branch.
routed :
    (sum256 : Str → Str) (r : Request) (run : TunnelRun) (h : Hub) (ws : Conn) (a : Ref) (sid : Str)
    → r.x_agent ≢ []
    → sid ≢ []
    → r.x_session ≡ sid
    → authorized h.cfg r.authorization ≡ true
    → lookup r.x_agent h.agents ≡ some a
    → run.accepted ≡ some ws
    → run.first_read ≡ frame (send_handshake sum256 sid).0 (send_handshake sum256 sid).1
    → handle_tunnel_ws sum256 r run h ≡ route_tunnel r.x_agent sid ws a run.now run.written h
unfolding handle_tunnel_ws TunnelWs.check_tunnel_request TunnelWs.session_of_request
    TunnelWs.session_of_header
routed sum256 r run h ws a sid named given session allowed found accepted read =
    ground (arith, (read_handshake-send_handshake sum256 sid sid).1 refl)

-- An entry's connection and the agent's answer, in this order: the entry's request leaves a session
-- that waits, the agent's tunnel binds it, and at the next tick the hub forwards between the two.
pub entry_connection_forwards :
    (sum256 : Str → Str) (cfg : EntryConfig) (c : AgentConfig) (sid : Str) (info : AgentInfo)
    (entry ws control : Conn) (a : Ref) (now later : ℕ) (dialled wrote written : Bool) (h : Hub)
    (run : OpenRun) (url : Str) (r r' : Request) (kind kind' : MessageType) (payload payload' : Str)
    (rest : List ConnStep) (rest' : List OpenStep)
    → c.agent_name ≢ []
    → info.agent_name ≡ c.agent_name
    → sid ≢ []
    → c.token ≢ []
    → cfg.token ≡ c.token
    → h.cfg.auth_token ≡ c.token
    → lookup c.agent_name h.agents ≡ some a
    → (h.agent_at a).control ≡ some control
    → lookup sid h.pending ≡ none
    → handle_conn sum256 cfg sid (picked info) dialled wrote
      ≡ Connection.dial_hub url r ∷ Connection.write_frame kind payload ∷ rest
    → handle_open sum256 c sid run ≡ dial_hub r' ∷ write_frame kind' payload' ∷ rest'
    → (h₁ h₂ : Hub) × (handle_tunnel_ws sum256 r
          (record {
            accepted = some entry;
            first_read = frame kind payload;
            now = now;
            written = true;
          })
          h
        ≡ returned h₁)
      × (handle_tunnel_ws sum256 r'
            (record {
              accepted = some ws;
              first_read = frame kind' payload';
              now = later;
              written = written;
            })
            h₁
          ≡ returned h₂)
      × (wait_round sid entry tick h₂ ≡ some (emit (forward entry ws) h₂))
unfolding tunnel_request rpc_authorization http_header route_tunnel join_session
    TunnelWs.bind_entry_session wait_round
entry_connection_forwards sum256 cfg c sid info entry ws control a now later dialled wrote written h
      run url r r' kind kind' payload payload' rest rest' named same given with_token entry_token
      hub_token found online new asked opened =
    let (h₁, began, waits, object, same_agents, same_cfg) =
      begin_session_online c.agent_name sid entry a now h {c = control} online in
    let by_entry =
      handle_conn_frame sum256 cfg sid info dialled wrote url r kind payload rest asked in
    let by_agent = handle_open_frame sum256 c sid run r' kind' payload' rest' opened in
    let pass = authorized-http_header h.cfg c.token c.agent_name sid (ground arith) with_token in
    let pass' = authorized-http_header h₁.cfg c.token c.agent_name sid (ground arith) with_token in
    let first : TunnelRun = record {
      accepted = some entry;
      first_read = frame kind payload;
      now = now;
      written = true;
    } in
    let second : TunnelRun = record {
      accepted = some ws;
      first_read = frame kind' payload';
      now = later;
      written = written;
    } in
    (
      h₁,
      TunnelWs.bind_entry_session h.next_session ws h₁,
      ground (arith, began, by_entry, pass.1 (ground arith), routed sum256 r first h entry a sid),
      ground (arith, by_agent, pass'.1 (ground arith), routed sum256 r' second h₁ ws a sid),
      ground arith,
    )
