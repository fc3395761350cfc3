-- ===== src/Hub/Steps/Invariant.antt =====
-- What holds of the hub whatever the order of the stretches.
use sshole.Base.{
  ℕ, ◌<◌, ◌≡◌, refl, ◌≢◌, ◌⊎◌, inl, inr, none, some, Str, arith, nat_eq, str_eq, subst, sym,
}
use sshole.Base.Dict.{lookup, lookup-insert, lookup-erase, insert, NodupKeys, insert-NodupKeys}
use sshole.Hub.State.{
  Ref, Hub, PendingSession, pending_init, pending_bound, pending_timeout, pending_closed,
}
use sshole.Hub.Ports.{find_available_port_lem}
use sshole.Hub.AgentWs
use sshole.Hub.AgentWs.{register_agent, attach_control, detach_control, stop, continue}
use sshole.Hub.Sessions.{cleanup_pending, mark_open_sent, insert_pending, ssh_session, bind_tunnel}
use sshole.Hub.TunnelWs.{bind_entry_session, entry_session}
use sshole.Hub.Steps.{
  Step, effect, ssh_inserted, entry_inserted, opened, cleaned, tunnel_bound, entry_bound,
  agent_added, agent_not_served, attached, detached, Reach, here, next,
}

-- An agent's entry leads to its own object, and its port leads back to its name.
abbrev pub AgentsAgree : Hub → Type 0
AgentsAgree h =
    (name : Str) (r : Ref)
    → lookup name h.agents ≡ some r
    → (r < h.next_agent)
      × ((h.agent_at r).name ≡ name)
      × (lookup (h.agent_at r).hub_port h.ports ≡ some name)

-- A pending entry leads to an object with its own id, which is neither closed nor timed out, and has
-- the connection of an SSH client or of an entry.
abbrev pub PendingAgree : Hub → Type 0
PendingAgree h =
    (sid : Str) (r : Ref)
    → lookup sid h.pending ≡ some r
    → (r < h.next_session)
      × ((h.session_at r).session_id ≡ sid)
      × ((h.session_at r).state ≢ pending_timeout)
      × ((h.session_at r).state ≢ pending_closed)
      × ((h.session_at r).entry_ws ≡ none → (h.session_at r).ssh_conn ≢ none)

-- A bound session has its tunnel, and a session is an SSH client's or an entry's, never both.
abbrev pub SessionsAgree : Hub → Type 0
SessionsAgree h =
    (r : Ref)
    → ((h.session_at r).state ≡ pending_bound → (h.session_at r).tunnel ≢ none)
      × (((h.session_at r).ssh_conn ≡ none) ⊎ ((h.session_at r).entry_ws ≡ none))

pub record IsWellFormed (h : Hub) : Type 0 where
  pub agents_nodup : NodupKeys h.agents
  pub agents_agree : AgentsAgree h
  pub pending_agree : PendingAgree h
  pub sessions_agree : SessionsAgree h

insert-agrees :
    (h : Hub) (p : PendingSession)
    → p.state ≡ pending_init
    → (p.entry_ws ≡ none → p.ssh_conn ≢ none)
    → PendingAgree h
    → PendingAgree (insert_pending p h)
insert-agrees h p fresh client agree sid r found =
    ground (arith, agree sid r, lookup-insert sid p.session_id h.next_session h.pending)

Step-PendingAgree : {h h' : Hub} → Step h h' → PendingAgree h → PendingAgree h'
unfolding mark_open_sent cleanup_pending bind_tunnel bind_entry_session register_agent
    attach_control detach_control
Step-PendingAgree (effect e) v sid q found = v sid q found
Step-PendingAgree {h} (ssh_inserted key agent conn now) v sid q found =
    insert-agrees h (ssh_session key agent conn now h) refl (λ e. ground arith) v sid q found
Step-PendingAgree {h} (entry_inserted key agent ws now) v sid q found =
    insert-agrees h (entry_session key agent ws now h) refl (λ e. ground arith) v sid q found
Step-PendingAgree (opened r l) v sid q found = ground (arith, v sid q)
Step-PendingAgree {h} (cleaned key s f) v sid q found =
    ground (arith, v sid q, v key q, lookup-erase sid key h.pending)
Step-PendingAgree (tunnel_bound key ws r e) v sid q found = ground (arith, v sid q)
Step-PendingAgree (entry_bound r ws entry l e) v sid q found = ground (arith, v sid q)
Step-PendingAgree (agent_added agent listen port e) v sid q found = ground (arith, v sid q)
Step-PendingAgree (agent_not_served agent listen e) v sid q found = ground (arith, v sid q)
Step-PendingAgree (attached agent ws now e) v sid q found = ground (arith, v sid q)
Step-PendingAgree (detached agent ws e) v sid q found = ground (arith, v sid q)

Step-SessionsAgree : {h h' : Hub} → Step h h' → SessionsAgree h → SessionsAgree h'
unfolding mark_open_sent cleanup_pending bind_tunnel bind_entry_session register_agent
    attach_control detach_control
Step-SessionsAgree (effect e) v q = v q
Step-SessionsAgree {h} (ssh_inserted key agent conn now) v q = ground (arith, v q)
Step-SessionsAgree {h} (entry_inserted key agent ws now) v q = ground (arith, v q)
Step-SessionsAgree (opened r l) v q = ground (arith, v q)
Step-SessionsAgree {h} (cleaned key s f) v q = ground (arith, v q)
Step-SessionsAgree (tunnel_bound key ws r e) v q = ground (arith, v q)
Step-SessionsAgree (entry_bound r ws entry l e) v q = ground (arith, v q)
Step-SessionsAgree (agent_added agent listen port e) v q = ground (arith, v q)
Step-SessionsAgree (agent_not_served agent listen e) v q = ground (arith, v q)
Step-SessionsAgree (attached agent ws now e) v q = ground (arith, v q)
Step-SessionsAgree (detached agent ws e) v q = ground (arith, v q)

pub register-agree :
    (agent : Str) (port : ℕ) (h : Hub)
    → lookup port h.ports ≡ none
    → AgentsAgree h
    → AgentsAgree (AgentWs.add_agent agent port h)
register-agree agent port h free v name r found = ground (
  arith,
  v name r,
  lookup-insert name agent h.next_agent h.agents,
  lookup-insert port port agent h.ports,
  lookup-insert (h.agent_at r).hub_port port agent h.ports,
)

Step-AgentsAgree : {h h' : Hub} → Step h h' → AgentsAgree h → AgentsAgree h'
unfolding mark_open_sent cleanup_pending bind_tunnel bind_entry_session register_agent
    attach_control detach_control
Step-AgentsAgree (effect e) v n q found = v n q found
Step-AgentsAgree {h} (ssh_inserted key agent conn now) v n q found = v n q found
Step-AgentsAgree {h} (entry_inserted key agent ws now) v n q found = v n q found
Step-AgentsAgree (opened r l) v n q found = v n q found
Step-AgentsAgree {h} (cleaned key s f) v n q found = ground (arith, v n q)
Step-AgentsAgree (tunnel_bound key ws r e) v n q found = ground (arith, v n q)
Step-AgentsAgree (entry_bound r ws entry l e) v n q found = v n q found
Step-AgentsAgree {h} (agent_added agent listen port e) v n q found =
    let (free, chosen, first) = find_available_port_lem h.ports in
    ground (arith, register-agree agent free h first.1 v n q)
Step-AgentsAgree {h} (agent_not_served agent listen e) v n q found =
    let (free, chosen, first) = find_available_port_lem h.ports in
    ground (arith, register-agree agent free h first.1 v n q)
Step-AgentsAgree (attached agent ws now e) v n q found = ground (arith, v n q)
Step-AgentsAgree (detached agent ws e) v n q found = ground (arith, v n q)

-- The map of agents stays, or a name gets a new object.
pub Step-agents :
    {h h' : Hub}
    → Step h h'
    → (h'.agents ≡ h.agents) ⊎ ((name : Str) × (r : Ref) × (h'.agents ≡ insert name r h.agents))
unfolding mark_open_sent cleanup_pending bind_tunnel bind_entry_session register_agent
    attach_control detach_control
Step-agents (effect e) = inl refl
Step-agents (ssh_inserted key agent conn now) = inl refl
Step-agents (entry_inserted key agent ws now) = inl refl
Step-agents (opened r l) = inl refl
Step-agents (cleaned key s f) = inl (ground arith)
Step-agents (tunnel_bound key ws r e) = inl (ground arith)
Step-agents (entry_bound r ws entry l e) = inl refl
Step-agents {h} (agent_added agent listen port e) =
    let (free, chosen, first) = find_available_port_lem h.ports in
    inr (agent, h.next_agent, ground (arith, chosen))
Step-agents {h} (agent_not_served agent listen e) =
    let (free, chosen, first) = find_available_port_lem h.ports in
    inr (agent, h.next_agent, ground (arith, chosen))
Step-agents (attached agent ws now e) = inl (ground arith)
Step-agents (detached agent ws e) = inl (ground arith)

Step-NodupKeys : {h h' : Hub} → Step h h' → NodupKeys h.agents → NodupKeys h'.agents
Step-NodupKeys {h} s u = elim (Step-agents s) [
  | inl same ↦ subst NodupKeys (sym same) u
  | inr (name, r, e) ↦ subst NodupKeys (sym e) (insert-NodupKeys name r h.agents u)
]

pub Step-IsWellFormed : {h h' : Hub} → Step h h' → IsWellFormed h → IsWellFormed h'
Step-IsWellFormed s v = record {
  agents_nodup = Step-NodupKeys s v.agents_nodup;
  agents_agree = Step-AgentsAgree s v.agents_agree;
  pending_agree = Step-PendingAgree s v.pending_agree;
  sessions_agree = Step-SessionsAgree s v.sessions_agree;
}

-- Every interleaving of the locked stretches keeps the hub well-formed.
pub Reach-IsWellFormed : {h h' : Hub} → Reach h h' → IsWellFormed h → IsWellFormed h'
Reach-IsWellFormed here v = v
Reach-IsWellFormed (next r s) v = Step-IsWellFormed s (Reach-IsWellFormed r v)

-- In a well-formed hub no two agents share a port.
pub hub_port-injective :
    {h : Hub} {a b : Str} {r q : Ref}
    → IsWellFormed h
    → lookup a h.agents ≡ some r
    → lookup b h.agents ≡ some q
    → (h.agent_at r).hub_port ≡ (h.agent_at q).hub_port
    → a ≡ b
hub_port-injective {a} {b} {r} {q} v at_a at_b same =
    ground (arith, v.agents_agree a r, v.agents_agree b q)
