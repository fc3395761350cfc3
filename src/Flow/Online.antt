-- ===== src/Flow/Online.antt =====
-- An agent comes online: connectControl of the agent and handleAgentWS of the hub, up to the read loop.
use sshole.Base.{◌≡◌, refl, ◌≢◌, true, Option, none, some, [], arith, nat_eq, str_eq}
use sshole.Base.Dict.{lookup, lookup-insert, insert}
use sshole.Hub.State.{Ref, Conn, Hub, emit, save_agents, go_serve_port, returned, set_agent}
use sshole.Hub.Mapping.{save_mapping, agent_ports}
use sshole.Hub.Ports.{find_available_port_lem}
use sshole.Hub.AgentWs.{
  AgentRun, Request, add_agent, check_agent_request, register_agent, register_branch,
  serve_and_save, attach_control, continue,
}
use sshole.Agent.Config.{AgentConfig}
use sshole.Agent.Requests.{http_header, authorized-http_header}
use sshole.Agent.Start.{connect_control}

-- Where an agent that the hub does not know dials with the hub's token, its port's listener opens and
-- the mapping is saved, the hub lets the request pass, registers the agent and attaches the
-- connection: then the agent is online on it, and the listener is that of its port.
pub agent_comes_online :
    (c : AgentConfig) (ln ws : Conn) (dialled : Option Conn) (run : AgentRun) (r : Request)
    (h : Hub)
    → c.agent_name ≢ []
    → c.token ≢ []
    → h.cfg.auth_token ≡ c.token
    → lookup c.agent_name h.agents ≡ none
    → (connect_control c true dialled).0 ≡ some r
    → run.listen ≡ some ln
    → run.written ≡ true
    → (h₁ h₂ : Hub) × (a : Ref) × (check_agent_request r h ≡ continue tt h)
      × (register_branch r.x_agent run h ≡ continue tt h₁)
      × (attach_control r.x_agent ws run.now h₁ ≡ returned h₂)
      × (lookup c.agent_name h₂.agents ≡ some a)
      × ((h₂.agent_at a).control ≡ some ws)
      × (lookup (h₂.agent_at a).hub_port h₂.ports ≡ some c.agent_name)
      × (lookup (h₂.agent_at a).hub_port h₂.listeners ≡ some ln)
      × (h₂.cfg ≡ h.cfg)
unfolding connect_control http_header check_agent_request register_branch register_agent
    serve_and_save save_mapping attach_control
agent_comes_online c ln ws dialled run r h named with_token same_token new dials listens saves =
    let (port, chosen, first) = find_available_port_lem h.ports in
    let added = add_agent c.agent_name port h in
    let served =
      emit (go_serve_port port c.agent_name)
        (record added { listeners = insert port ln added.listeners }) in
    let h₁ = emit (save_agents (agent_ports served.agents served)) served in
    let pass = authorized-http_header h.cfg c.token c.agent_name [] (ground arith) with_token in
    let entry = lookup-insert c.agent_name c.agent_name h.next_agent h.agents in
    (
      h₁,
      set_agent h.next_agent
          (record (h₁.agent_at h.next_agent) { control = some ws; connected_at = run.now }) h₁,
      h.next_agent,
      ground (arith, pass.1 (ground arith)),
      ground (arith, chosen),
      ground (arith, entry),
      ground (arith, entry),
      ground arith,
      ground (arith, lookup-insert port port c.agent_name h.ports),
      ground (arith, lookup-insert port port ln h.listeners),
      refl,
    )
