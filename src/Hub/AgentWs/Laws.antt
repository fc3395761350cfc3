-- ===== src/Hub/AgentWs/Laws.antt =====
-- How an agent is registered, comes online and goes offline.
use sshole.Base.{
  ℕ, ◌≡◌, refl, ◌≢◌, inl, inr, true, false, none, some, [], Str, arith, str_eq, nat_eq, ◌==◌,
  if◌then◌else◌, Option-cases,
}
use sshole.Base.Text.{codes}
use sshole.Base.Dict.{lookup, lookup-insert, insert}
use sshole.Hub.State.{Ref, Conn, Hub, set_agent, http_error, emit, returned}
use sshole.Hub.Auth.{authorized}
use sshole.Hub.Ports.{find_available_port_lem, IsFirstFree, first_port}
use sshole.Hub.AgentWs as Registration
use sshole.Hub.AgentWs.{
  Request, AgentRun, check_agent_request, register_agent, registered, attach_control,
  detach_control, handle_agent_ws, add_agent, stop, continue,
}
use sshole.Hub.Steps.Invariant.{IsWellFormed}

-- A request without the hub's token gets 401 and changes nothing else.
pub handle_agent_ws_unauthorized :
    (r : Request) (run : AgentRun) (h : Hub)
    → r.x_agent ≢ []
    → authorized h.cfg r.authorization ≡ false
    → handle_agent_ws r run h ≡ returned (emit (http_error 401 (codes "unauthorized")) h)
unfolding handle_agent_ws check_agent_request
handle_agent_ws_unauthorized r run h named refused = ground arith

-- Where the listener opens, a new agent gets the first free port from 10000 on: its entry, the port's
-- entry and the listener agree, and no other agent's entry or object changes.
pub register_agent_lem :
    (agent : Str) (ln : Conn) (h : Hub)
    → IsWellFormed h
    → (port : ℕ) × (h' : Hub) × (register_agent agent (some ln) h ≡ continue port h')
      × IsFirstFree h.ports first_port port
      × (lookup agent h'.agents ≡ some h.next_agent)
      × ((h'.agent_at h.next_agent).hub_port ≡ port)
      × (lookup port h'.ports ≡ some agent)
      × (lookup port h'.listeners ≡ some ln)
      × ((other : Str) (r : Ref)
          → other ≢ agent
          → lookup other h.agents ≡ some r
          → (lookup other h'.agents ≡ some r) × (h'.agent_at r ≡ h.agent_at r))
unfolding register_agent
register_agent_lem agent ln h v =
    let (port, chosen, first) = find_available_port_lem h.ports in
    let h₁ = add_agent agent port h in
    (
      port,
      record h₁ { listeners = insert port ln h₁.listeners },
      ground (arith, chosen),
      first,
      ground (arith, lookup-insert agent agent h.next_agent h.agents),
      ground arith,
      ground (arith, lookup-insert port port agent h.ports),
      ground (arith, lookup-insert port port ln h.listeners),
      λ other r differs found.
          ground (arith, v.agents_agree other r, lookup-insert other agent h.next_agent h.agents),
    )

-- In a hub that listens on no port but those of its agents, where the listener for an agent does not
-- open, the agent stays registered on a port that was free, the port leads to the agent, and nobody
-- listens on it; a later request of the agent finds it known and opens no listener.
pub register_agent_failed :
    (agent : Str) (h : Hub)
    → ((p : ℕ) → lookup p h.ports ≡ none → lookup p h.listeners ≡ none)
    → (port : ℕ) × (h' : Hub) × (register_agent agent none h ≡ stop h')
      × (lookup port h.ports ≡ none)
      × (lookup port h'.ports ≡ some agent)
      × (lookup agent h'.agents ≡ some h.next_agent)
      × ((h'.agent_at h.next_agent).hub_port ≡ port)
      × (lookup port h'.listeners ≡ none)
      × (registered agent h' ≡ true)
      × (h'.listeners ≡ h.listeners)
      × ((run : AgentRun) → Registration.register_branch agent run h' ≡ continue tt h')
unfolding register_agent Registration.register_branch
register_agent_failed agent h listens =
    let (port, chosen, first) = find_available_port_lem h.ports in
    let fact = lookup-insert agent agent h.next_agent h.agents in
    let opened = lookup-insert port port agent h.ports in
    (
      port,
      emit (http_error 500 (codes "failed to start listener")) (add_agent agent port h),
      ground (arith, chosen),
      first.1,
      ground (arith, opened),
      ground (arith, fact),
      ground arith,
      ground (arith, listens port first.1),
      ground (arith, fact),
      refl,
      λ run. ground (arith, fact),
    )

-- When a control connection ends the agent goes offline, unless a newer connection has taken over.
pub detach_control_lem :
    (agent : Str) (ws current : Conn) (r : Ref) (h : Hub)
    → lookup agent h.agents ≡ some r
    → (h.agent_at r).control ≡ some current
    → (h' : Hub) × (detach_control agent ws h ≡ returned h')
      × ((h'.agent_at r).control ≡ (if current == ws then none else some current))
      × (h'.agents ≡ h.agents)
      × ((h'.agent_at r).hub_port ≡ (h.agent_at r).hub_port)
unfolding detach_control
detach_control_lem agent ws current r h found online = (
  if current == ws then set_agent r (record (h.agent_at r) { control = none }) h else h,
  ground arith,
  ground arith,
  ground arith,
  ground arith,
)

-- A reconnection survives the end of the connection that it replaced.
pub reconnect_survives :
    (agent : Str) (old new : Conn) (earlier later : ℕ) (h h₁ h₂ : Hub)
    → old ≢ new
    → attach_control agent old earlier h ≡ returned h₁
    → attach_control agent new later h₁ ≡ returned h₂
    → detach_control agent old h₂ ≡ returned h₂
unfolding attach_control detach_control
reconnect_survives agent old new earlier later h h₁ h₂ differ first second =
    elim (Option-cases (lookup agent h.agents)) [ inl e ↦ ground arith | inr (r, e) ↦ ground arith ]
