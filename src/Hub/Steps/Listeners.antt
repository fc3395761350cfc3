-- ===== src/Hub/Steps/Listeners.antt =====
-- Where the ports that the hub listens on lead.
use sshole.Base.{
  ℕ, ◌≡◌, refl, ◌≢◌, ◌⊎◌, inl, inr, Option, none, some, [], ◌∷◌, Str, arith, str_eq, nat_eq, ◌==◌,
  if◌then◌else◌, Option-cases, ℕ_discrete, subst,
}
use sshole.Base.Dict.{Dict, lookup, insert, lookup-insert, lookup-cons, lookup-nil}
use sshole.Hub.State.{Ref, Conn, Hub, HubConfig, emit, go_serve_port}
use sshole.Hub.Config.{with_defaults}
use sshole.Hub.Mapping.Order.{ok-inj}
use sshole.Hub.Ports.{find_available_port_lem}
use sshole.Hub.Mapping.{PortMapping, ok, load_agents}
use sshole.Hub.AgentWs.{register_agent, attach_control, detach_control, add_agent}
use sshole.Hub.Sessions.{cleanup_pending, mark_open_sent, bind_tunnel}
use sshole.Hub.TunnelWs.{bind_entry_session}
use sshole.Hub.Start.{new_hub, empty_hub, start_port_listeners}
use sshole.Hub.Steps.{
  Step, effect, ssh_inserted, entry_inserted, opened, cleaned, tunnel_bound, entry_bound,
  agent_added, agent_not_served, attached, detached, Reach, here, next,
}

-- The port is an agent's, and the hub knows the agent.
abbrev pub Leads : ℕ → Hub → Type 0
Leads port h =
    (agent : Str) × (r : Ref) × (lookup port h.ports ≡ some agent)
    × (lookup agent h.agents ≡ some r)

abbrev pub ListenersLead : Hub → Type 0
ListenersLead h = (port : ℕ) (ln : Conn) → lookup port h.listeners ≡ some ln → Leads port h

-- The three maps are left alone.
abbrev SameMaps : Hub → Hub → Type 0
SameMaps h h' = (h'.agents ≡ h.agents) × (h'.ports ≡ h.ports) × (h'.listeners ≡ h.listeners)

-- An agent gets an object and a port, with a listener or without one.
abbrev Registers : Hub → Hub → Type 0
Registers h h' =
    (agent : Str) × (port : ℕ) × (r : Ref) × (h'.agents ≡ insert agent r h.agents)
    × (h'.ports ≡ insert port agent h.ports)
    × ((h'.listeners ≡ h.listeners) ⊎ ((ln : Conn) × (h'.listeners ≡ insert port ln h.listeners)))

Step-maps : {h h' : Hub} → Step h h' → SameMaps h h' ⊎ Registers h h'
unfolding mark_open_sent cleanup_pending bind_tunnel bind_entry_session register_agent
    attach_control detach_control
Step-maps (effect e) = inl (refl, refl, refl)
Step-maps (ssh_inserted key agent conn now) = inl (refl, refl, refl)
Step-maps (entry_inserted key agent ws now) = inl (refl, refl, refl)
Step-maps (opened r l) = inl (refl, refl, refl)
Step-maps (cleaned key s f) = inl (ground arith, ground arith, ground arith)
Step-maps (tunnel_bound key ws r e) = inl (ground arith, ground arith, ground arith)
Step-maps (entry_bound r ws entry l e) = inl (refl, refl, refl)
Step-maps {h} (agent_added agent none port e) = absurd (ground arith)
Step-maps {h} (agent_added agent (some ln) port e) =
    let (free, chosen, first) = find_available_port_lem h.ports in
    inr (
      agent,
      free,
      h.next_agent,
      ground (arith, chosen),
      ground (arith, chosen),
      inr (ln, ground (arith, chosen)),
    )
Step-maps {h} (agent_not_served agent none e) =
    let (free, chosen, first) = find_available_port_lem h.ports in
    inr (
      agent,
      free,
      h.next_agent,
      ground (arith, chosen),
      ground (arith, chosen),
      inl (ground (arith, chosen)),
    )
Step-maps {h} (agent_not_served agent (some ln) e) =
    let (free, chosen, first) = find_available_port_lem h.ports in absurd (ground (arith, chosen))
Step-maps (attached agent ws now e) = inl (ground arith, ground arith, ground arith)
Step-maps (detached agent ws e) = inl (ground arith, ground arith, ground arith)

-- The new port leads to the new agent, and every other port where it led.
Registers-Leads :
    (h h' : Hub) (port : ℕ) (ln : Conn)
    → Registers h h'
    → ListenersLead h
    → lookup port h'.listeners ≡ some ln
    → Leads port h'
Registers-Leads h h' port ln (agent, new, q, agents, ports, listeners) v found =
    let at_port = lookup-insert port new agent h.ports in
    elim (ℕ_discrete port new) [
      | yes same ↦
          (agent, q, ground (arith, at_port), ground (arith, lookup-insert agent agent q h.agents))
      | no other ↦
          let (name, r, to_name, known) = v port ln (before listeners other) in
          (
            name,
            if name == agent then q else r,
            ground (arith, at_port),
            ground (arith, lookup-insert name agent q h.agents),
          )
    ]
  where
    before :
        (h'.listeners ≡ h.listeners) ⊎ ((l : Conn) × (h'.listeners ≡ insert new l h.listeners))
        → port ≢ new
        → lookup port h.listeners ≡ some ln
    before (inl same) other = ground arith
    before (inr (l, e)) other = ground (arith, lookup-insert port new l h.listeners)

SameMaps-Leads : (h h' : Hub) (port : ℕ) → SameMaps h h' → Leads port h → Leads port h'
SameMaps-Leads h h' port (agents, ports, listeners) (name, r, to_name, known) =
    (name, r, ground arith, ground arith)

Step-ListenersLead : {h h' : Hub} → Step h h' → ListenersLead h → ListenersLead h'
Step-ListenersLead {h} {h'} s v port ln found = elim (Step-maps s) [
  | inl same ↦ SameMaps-Leads h h' port same (v port ln (ground arith))
  | inr registers ↦ Registers-Leads h h' port ln registers v found
]

Reach-ListenersLead : {h h' : Hub} → Reach h h' → ListenersLead h → ListenersLead h'
Reach-ListenersLead here v = v
Reach-ListenersLead (next r s) v = Step-ListenersLead s (Reach-ListenersLead r v)

-- What a mapping that loads leaves.
abbrev PortsLead : Hub → Type 0
PortsLead h = (port : ℕ) (agent : Str) → lookup port h.ports ≡ some agent → Leads port h

add_agent-PortsLead :
    (agent : Str) (new : ℕ) (h : Hub) → PortsLead h → PortsLead (add_agent agent new h)
add_agent-PortsLead agent new h v port name found = elim (ℕ_discrete port new) [
  | yes same ↦ (
    agent,
    h.next_agent,
    ground (arith, lookup-insert port new agent h.ports),
    ground (arith, lookup-insert agent agent h.next_agent h.agents),
  )
  | no other ↦
      let (a, r, to_a, known) =
        v port name (ground (arith, lookup-insert port new agent h.ports)) in
      (
        a,
        if a == agent then h.next_agent else r,
        ground (arith, lookup-insert port new agent h.ports),
        ground (arith, lookup-insert a agent h.next_agent h.agents),
      )
]

load_agents-PortsLead :
    (pm : PortMapping) (h h' : Hub)
    → load_agents pm h ≡ ok h'
    → PortsLead h
    → PortsLead h' × (h'.listeners ≡ h.listeners)
unfolding load_agents
load_agents-PortsLead [] h h' e v = (subst PortsLead (ok-inj h h' e) v, ground arith)
load_agents-PortsLead ((agent, port) ∷ pm) h h' e v = elim (Option-cases (lookup port h.ports)) [
  | inr (existing, taken) ↦ absurd (ground arith)
  | inl free ↦
      load_agents-PortsLead pm (add_agent agent port h) h' (ground arith)
        (add_agent-PortsLead agent port h v)
]

-- The listeners of startPortListeners are those that were there and those of the ports of its list.
start_port_listeners-ports :
    (listen : ℕ → Option Conn) (d : Dict ℕ Str) (h h' : Hub) (port : ℕ) (ln : Conn)
    → start_port_listeners listen d h ≡ (none, h')
    → lookup port h'.listeners ≡ some ln
    → (h'.agents ≡ h.agents)
      × (h'.ports ≡ h.ports)
      × (lookup port h.listeners ≡ none → lookup port d ≢ none)
unfolding start_port_listeners
start_port_listeners-ports listen [] h h' port ln e found =
    (ground arith, ground arith, λ missing _. ground arith)
start_port_listeners-ports listen ((q, b) ∷ d) h h' port ln e found =
    elim (Option-cases (listen q)) [
      | inl refused ↦ absurd (ground arith)
      | inr (l, opens) ↦
          let g : Hub =
            emit (go_serve_port q b) (record h { listeners = insert q l h.listeners }) in
          let (agents, ports, there) =
            start_port_listeners-ports listen d g h' port ln (ground arith) found in
          (
            agents,
            ports,
            λ missing gone.
                ground (arith, there, lookup-insert port q l h.listeners, lookup-cons port q b d),
          )
    ]

-- In every hub that is reached after a start, whatever the order of the stretches, each port that is
-- listened on is the port of an agent, and the hub knows this agent.
pub reached_listeners_lead :
    (cfg : HubConfig) (pm : PortMapping) (listen : ℕ → Option Conn) (g h₀ h : Hub) (port : ℕ)
    (ln : Conn)
    → new_hub cfg (ok pm) ≡ ok g
    → start_port_listeners listen g.ports g ≡ (none, h₀)
    → Reach h₀ h
    → lookup port h.listeners ≡ some ln
    → Leads port h
unfolding new_hub
reached_listeners_lead cfg pm listen g h₀ h port ln loads starts p found =
    Reach-ListenersLead p
      (λ q l at_q.
        let (leads, none_yet) =
          load_agents-PortsLead pm (empty_hub (with_defaults cfg)) g loads
            (λ x a e. absurd (ground (arith, lookup-nil {V = Str} x))) in
        let (agents, ports, there) =
          start_port_listeners-ports listen g.ports g h₀ q l starts at_q in
        elim (Option-cases (lookup q g.ports)) [
          | inl gone ↦ absurd (there (ground (arith, none_yet, lookup-nil {V = Conn} q)) gone)
          | inr (a, led) ↦
              let (name, r, to_name, known) = leads q a led in (name, r, ground arith, ground arith)
        ])
      port ln found
