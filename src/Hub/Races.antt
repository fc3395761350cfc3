-- ===== src/Hub/Races.antt =====
-- Handlers of hub.go and agent_ws.go that overlap: what one has read is no longer so when it goes on.
use sshole.Base.{
  ℕ, ◌≡◌, Bool, true, ◌≢◌, inl, inr, some, none, Option-cases, Str, arith, str_eq, nat_eq,
}
use sshole.Base.Dict.{lookup, insert, lookup-insert}
use sshole.Hub.State.{Ref, Conn, Hub, set_agent, returned, panicked}
use sshole.Hub.Ports.{find_available_port_lem}
use sshole.Hub.AgentWs.{register_agent, registered, add_agent, detach_control, continue}
use sshole.Hub.Sessions.{ssh_lookup, insert_pending, ssh_session, send_open, ssh_after_send}

-- The block that registers an agent run a second time for the same agent, as it is where two requests
-- pass the test before either takes the lock, although the test would by then find the agent: the
-- agent gets two ports with a listener each, both ports lead to its name, and its entry is the second
-- object, with the second port.
pub register_agent_twice :
    (agent : Str) (ln ln' : Conn) (h : Hub)
    → (port port' : ℕ) × (h₁ h₂ : Hub) × (register_agent agent (some ln) h ≡ continue port h₁)
      × (registered agent h₁ ≡ true)
      × (register_agent agent (some ln') h₁ ≡ continue port' h₂)
      × (port ≢ port')
      × (lookup port h₂.ports ≡ some agent)
      × (lookup port' h₂.ports ≡ some agent)
      × (lookup port h₂.listeners ≡ some ln)
      × (lookup port' h₂.listeners ≡ some ln')
      × (lookup agent h₂.agents ≡ some h₁.next_agent)
      × ((h₂.agent_at h₁.next_agent).hub_port ≡ port')
unfolding register_agent
register_agent_twice agent ln ln' h =
    let (port, chosen, first) = find_available_port_lem h.ports in
    let g = add_agent agent port h in
    let h₁ : Hub = record g { listeners = insert port ln g.listeners } in
    let (port', chosen', first') = find_available_port_lem h₁.ports in
    let g' = add_agent agent port' h₁ in
    let differ : port ≢ port' =
      (λ e. ground (arith, first'.1, lookup-insert port port agent h.ports)) in
    (
      port,
      port',
      h₁,
      record g' { listeners = insert port' ln' g'.listeners },
      ground (arith, chosen),
      ground (arith, lookup-insert agent agent h.next_agent h.agents),
      ground (arith, chosen'),
      differ,
      ground
          (arith, lookup-insert port port' agent h₁.ports, lookup-insert port port agent h.ports),
      ground (arith, lookup-insert port' port' agent h₁.ports),
      ground (
        arith,
        lookup-insert port port' ln' g'.listeners,
        lookup-insert port port ln g.listeners,
        differ,
      ),
      ground (arith, lookup-insert port' port' ln' g'.listeners),
      ground (arith, lookup-insert agent agent h₁.next_agent h₁.agents),
      ground arith,
    )

-- An agent that was online when onSSHConn looked, but whose connection ends before the OPEN is sent:
-- the handler reads the connection a second time, without the lock, and dereferences nil.
pub ssh_after_disconnect :
    (agent sid : Str) (conn ws : Conn) (a : Ref) (now : ℕ) (written : Bool) (h : Hub)
    → ssh_lookup agent h ≡ some a
    → (h.agent_at a).control ≡ some ws
    → (h' : Hub) × (detach_control agent ws h ≡ returned h')
      × (ssh_lookup agent h' ≡ none)
      × (let h₁ = insert_pending (ssh_session sid agent conn now h') h' in
          ssh_after_send h'.next_session sid (send_open (h₁.agent_at a).control sid written h₁)
          ≡ panicked)
unfolding ssh_lookup detach_control send_open ssh_after_send
ssh_after_disconnect agent sid conn ws a now written h online control =
    elim (Option-cases (lookup agent h.agents)) [
      | inl gone ↦ absurd (ground arith)
      | inr (r, found) ↦ (
        set_agent a (record (h.agent_at a) { control = none }) h,
        ground arith,
        ground arith,
        ground arith,
      )
    ]
