-- ===== src/Hub/AgentWs.antt =====
-- pkg/hub/agent_ws.go. The handler is cut where it lets go of the lock or waits for the network.
-- What net.Listen, the mapping file, websocket.Accept and the reads answer is an argument.
pub mod Laws
use sshole.Base.{
  ℕ, ◌≡◌, Bool, true, false, Option, none, some, List, [], ◌∷◌, Str, ◌==◌, nat_eq, str_eq,
  if◌then◌else◌, not, is_none,
}
use sshole.Base.Text.{codes}
use sshole.Base.Dict.{lookup, insert}
use sshole.Tunnel.Handshake.{ReadResult, read_failed, frame, text, binary}
use sshole.Hub.State.{
  Ref, Conn, AgentState, Hub, Effect, close_ws, http_error, go_serve_port, normal_closure,
  unsupported_data, emit, new_agent, set_agent, Outcome, returned, panicked,
}
use sshole.Hub.Auth.{authorized}
use sshole.Hub.Mapping.{save_mapping}
use sshole.Hub.Ports.{find_available_port}

-- The headers that the hub reads; an absent header is empty.
pub record Request : Type 0 where
  pub x_agent : Str
  pub x_session : Str
  pub authorization : Str

-- What a stretch of the handler does next: it has answered, or goes on.
pub data Step {ℓ} (A : Type ℓ) : Type ℓ where
  stop : Hub → Step A
  continue : A → Hub → Step A

-- The tests before anything changes.
unfoldable pub check_agent_request : Request → Hub → Step (Unit {0})
check_agent_request r h =
    if r.x_agent == []
    then stop (emit (http_error 400 (codes "missing X-Agent")) h)
    else if not (authorized h.cfg r.authorization)
    then stop (emit (http_error 401 (codes "unauthorized")) h)
    else continue tt h

-- The agent and its port go into the maps, before the port is listened on.
abbrev pub add_agent : Str → ℕ → Hub → Hub
add_agent agent port h =
    let h₁ =
      new_agent (record { name = agent; control = none; hub_port = port; connected_at = 0 }) h in
    record h₁ { agents = insert agent h.next_agent h₁.agents; ports = insert port agent h₁.ports }

-- The locked block that gives a new agent a port; `listen` is the listener or an error.
unfoldable pub register_agent : Str → Option Conn → Hub → Step ℕ
register_agent agent listen h = elim (find_available_port h.ports) [
  | none ↦ stop h
  | some port ↦
      let h₁ = add_agent agent port h in
      elim listen [
        | none ↦ stop (emit (http_error 500 (codes "failed to start listener")) h₁)
        | some ln ↦ continue port (record h₁ { listeners = insert port ln h₁.listeners })
      ]
]

-- From there to the end of the branch: the listener's loop is started and the mapping is saved.
unfoldable pub serve_and_save : Str → ℕ → Bool → Hub → Step (Unit {0})
serve_and_save agent port written h =
    let (h₁, saved) = save_mapping written (emit (go_serve_port port agent) h) in
    if saved
    then continue tt h₁
    else stop (emit (http_error 500 (codes "failed to persist agent")) h₁)

abbrev pub registered : Str → Hub → Bool
registered agent h = not (is_none (lookup agent h.agents))

-- `state := h.agents[agentName]; state.Control = wsConn; …`
unfoldable pub attach_control : Str → Conn → ℕ → Hub → Outcome Hub
attach_control agent ws now h = elim (lookup agent h.agents) [
  | none ↦ panicked
  | some r ↦
      returned (set_agent r (record (h.agent_at r) { control = some ws; connected_at = now }) h)
]

abbrev pub is_control : Conn → Option Conn → Bool
is_control ws none = false
is_control ws (some c) = c == ws

-- The second locked block: the connection is removed if it is still the agent's.
unfoldable pub detach_control : Str → Conn → Hub → Outcome Hub
detach_control agent ws h = elim (lookup agent h.agents) [
  | none ↦ panicked
  | some r ↦ returned (
      if is_control ws (h.agent_at r).control
      then set_agent r (record (h.agent_at r) { control = none }) h
      else h)
]

-- The read loop, over the reads to come; payloads of text frames are ignored.
unfoldable pub read_loop : Conn → List ReadResult → Hub → Hub
read_loop ws [] h = h
read_loop ws (read_failed ∷ rest) h = h
read_loop ws (frame text payload ∷ rest) h = read_loop ws rest h
read_loop ws (frame binary payload ∷ rest) h =
    emit (close_ws ws unsupported_data (codes "text only")) h

abbrev pub finish_control : Str → Conn → Outcome Hub → Outcome Hub
finish_control agent ws panicked = panicked
finish_control agent ws (returned h) = returned (emit (close_ws ws normal_closure []) h)

-- What the environment answers during one run of the handler.
pub record AgentRun : Type 0 where
  pub listen : Option Conn
  pub written : Bool
  pub accepted : Option Conn
  pub now : ℕ
  pub reads : List ReadResult

-- From `websocket.Accept` to the end.
unfoldable pub serve_control : Str → AgentRun → Hub → Outcome Hub
serve_control agent run h = elim run.accepted [
  | none ↦ returned h
  | some ws ↦ elim (attach_control agent ws run.now h) [
    | panicked ↦ panicked
    | returned h₁ ↦ finish_control agent ws (detach_control agent ws (read_loop ws run.reads h₁))
  ]
]

-- The branch for an agent that the hub does not know.
unfoldable pub register_branch : Str → AgentRun → Hub → Step (Unit {0})
register_branch agent run h =
    if registered agent h then continue tt h else elim (register_agent agent run.listen h) [
      | stop h₁ ↦ stop h₁
      | continue port h₁ ↦ serve_and_save agent port run.written h₁
    ]

-- handleAgentWS where nothing runs in between.
unfoldable pub handle_agent_ws : Request → AgentRun → Hub → Outcome Hub
handle_agent_ws r run h = elim (check_agent_request r h) [
  | stop h₁ ↦ returned h₁
  | continue _ h₁ ↦ elim (register_branch r.x_agent run h₁) [
    | stop h₂ ↦ returned h₂
    | continue _ h₂ ↦ serve_control r.x_agent run h₂
  ]
]
