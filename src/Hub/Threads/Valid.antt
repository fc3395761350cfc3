-- ===== src/Hub/Threads/Valid.antt =====
-- What the local variables of a goroutine say about the hub, whatever the other goroutines do.
use sshole.Base.{
  ◌∙◌, ◌<◌, ◌≡◌, refl, ◌≢◌, inl, inr, none, List, [], ◌∷◌, Str, arith, str_eq, nat_eq, All,
}
use sshole.Base.Dict.{lookup, lookup-insert}
use sshole.Hub.State.{Ref, Hub}
use sshole.Hub.AgentWs.{register_agent, attach_control, detach_control}
use sshole.Hub.Sessions.{cleanup_pending, mark_open_sent, bind_tunnel}
use sshole.Hub.TunnelWs.{bind_entry_session}
use sshole.Hub.Steps.{
  Step, effect, ssh_inserted, entry_inserted, opened, cleaned, tunnel_bound, entry_bound,
  agent_added, agent_not_served, attached, detached, Reach, here, next,
}
use sshole.Hub.Steps.Invariant.{Step-agents}
use sshole.Hub.Threads.{
  SshPoint, ssh_start, ssh_found, ssh_unsent, ssh_pending, ssh_sent, TunnelPoint, tunnel_start,
  tunnel_checked, tunnel_accepted, tunnel_named, entry_found, entry_unsent, agent_start,
  agent_checked, agent_unknown, join, bound_to, entry_pending, entry_sent, AgentPoint,
  agent_accepts, agent_attaches, agent_reads, agent_ends, Thread, ssh, tunnel, agent,
}
use sshole.Hub.Threads as Points

abbrev pub Known : Str → Hub → Type 0
Known name h = lookup name h.agents ≢ none

-- The pointer leads to a session.
abbrev pub Allocated : Ref → Hub → Type 0
Allocated r h = r < h.next_session

-- It leads to a session of this id.
abbrev pub Named : Str → Ref → Hub → Type 0
Named sid r h = Allocated r h × ((h.session_at r).session_id ≡ sid)

-- It leads to a session that has a tunnel.
abbrev pub Tunnelled : Ref → Hub → Type 0
Tunnelled r h = Allocated r h × ((h.session_at r).tunnel ≢ none)

abbrev pub IsValidSsh : Hub → SshPoint → Type 0
IsValidSsh h (ssh_pending sid r a) = Named sid r h
IsValidSsh h (ssh_sent sid r) = Named sid r h
IsValidSsh h _ = Unit {0}

abbrev pub IsValidTunnel : Hub → TunnelPoint → Type 0
IsValidTunnel h (join name sid ws r) = Allocated r h
IsValidTunnel h (bound_to name ws r) = Tunnelled r h
IsValidTunnel h (entry_pending sid ws r a) = Named sid r h
IsValidTunnel h (entry_sent sid ws r) = Named sid r h
IsValidTunnel h _ = Unit {0}

abbrev pub IsValidAgent : Hub → AgentPoint → Type 0
IsValidAgent h (agent_attaches name ws) = Known name h
IsValidAgent h (agent_reads name ws) = Known name h
IsValidAgent h (agent_ends name ws) = Known name h
IsValidAgent h (agent_accepts name) = Known name h
IsValidAgent h (Points.agent_added name port) = Known name h
IsValidAgent h _ = Unit {0}

abbrev pub IsValid : Hub → Thread → Type 0
IsValid h (ssh p) = IsValidSsh h p
IsValid h (tunnel p) = IsValidTunnel h p
IsValid h (agent p) = IsValidAgent h p
IsValid h _ = Unit {0}

Step-Known : {h h' : Hub} (name : Str) → Step h h' → Known name h → Known name h'
Step-Known {h} name s known gone = elim (Step-agents s) [
  | inl same ↦ known (ground arith)
  | inr (other, r, e) ↦ ground (arith, known, lookup-insert name other r h.agents)
]

-- A session stays allocated, and keeps its entry's websocket, a tunnel that it has, and its id.
Step-session :
    {h h' : Hub} (r : Ref)
    → Step h h'
    → Allocated r h
    → Allocated r h'
      × ((h'.session_at r).entry_ws ≡ (h.session_at r).entry_ws)
      × ((h.session_at r).tunnel ≢ none → (h'.session_at r).tunnel ≢ none)
      × ((h'.session_at r).session_id ≡ (h.session_at r).session_id)
unfolding mark_open_sent cleanup_pending bind_tunnel bind_entry_session register_agent
    attach_control detach_control
Step-session r (effect e) l = (l, refl, (λ t. t), refl)
Step-session r (ssh_inserted key name conn now) l =
    (omega (arith, l), ground arith, (λ t e. ground (arith, t)), ground arith)
Step-session r (entry_inserted key name ws now) l =
    (omega (arith, l), ground arith, (λ t e. ground (arith, t)), ground arith)
Step-session r (opened q k) l =
    (ground arith, ground arith, (λ t e. ground (arith, t)), ground arith)
Step-session r (cleaned key s f) l =
    (ground arith, ground arith, (λ t e. ground (arith, t)), ground arith)
Step-session r (tunnel_bound key ws q e) l =
    (ground arith, ground arith, (λ t n. ground (arith, t)), ground arith)
Step-session r (entry_bound q ws entry k e) l =
    (ground arith, ground arith, (λ t n. ground (arith, t)), ground arith)
Step-session r (agent_added name listen port e) l =
    (ground arith, ground arith, (λ t n. ground (arith, t)), ground arith)
Step-session r (agent_not_served name listen e) l =
    (ground arith, ground arith, (λ t n. ground (arith, t)), ground arith)
Step-session r (attached name ws now e) l =
    (ground arith, ground arith, (λ t n. ground (arith, t)), ground arith)
Step-session r (detached name ws e) l =
    (ground arith, ground arith, (λ t n. ground (arith, t)), ground arith)

Step-Tunnelled : {h h' : Hub} (r : Ref) → Step h h' → Tunnelled r h → Tunnelled r h'
Step-Tunnelled r s (l, has_tunnel) =
    let (l', entry, keeps, id) = Step-session r s l in (l', keeps has_tunnel)

Step-Named : {h h' : Hub} (sid : Str) (r : Ref) → Step h h' → Named sid r h → Named sid r h'
Step-Named sid r s (l, named) = let (l', entry, keeps, id) = Step-session r s l in (l', id ∙ named)

Step-IsValidSsh : {h h' : Hub} (p : SshPoint) → Step h h' → IsValidSsh h p → IsValidSsh h' p
Step-IsValidSsh (ssh_pending sid r a) s v = Step-Named sid r s v
Step-IsValidSsh (ssh_sent sid r) s v = Step-Named sid r s v
Step-IsValidSsh (ssh_start name conn) s v = tt
Step-IsValidSsh (ssh_found name conn a) s v = tt
Step-IsValidSsh (ssh_unsent sid) s v = tt

Step-IsValidTunnel :
    {h h' : Hub} (p : TunnelPoint) → Step h h' → IsValidTunnel h p → IsValidTunnel h' p
Step-IsValidTunnel (join name sid ws r) s v = (Step-session r s v).0
Step-IsValidTunnel (bound_to name ws r) s v = Step-Tunnelled r s v
Step-IsValidTunnel (entry_pending sid ws r a) s v = Step-Named sid r s v
Step-IsValidTunnel (entry_sent sid ws r) s v = Step-Named sid r s v
Step-IsValidTunnel (tunnel_start request) s v = tt
Step-IsValidTunnel (tunnel_checked request a) s v = tt
Step-IsValidTunnel (tunnel_accepted request a ws) s v = tt
Step-IsValidTunnel (tunnel_named name sid ws a) s v = tt
Step-IsValidTunnel (entry_found name sid ws a) s v = tt
Step-IsValidTunnel (entry_unsent sid ws) s v = tt

Step-IsValidAgent : {h h' : Hub} (p : AgentPoint) → Step h h' → IsValidAgent h p → IsValidAgent h' p
Step-IsValidAgent (agent_attaches name ws) s v = Step-Known name s v
Step-IsValidAgent (agent_reads name ws) s v = Step-Known name s v
Step-IsValidAgent (agent_ends name ws) s v = Step-Known name s v
Step-IsValidAgent (agent_accepts name) s v = Step-Known name s v
Step-IsValidAgent (Points.agent_added name port) s v = Step-Known name s v
Step-IsValidAgent (agent_start request) s v = tt
Step-IsValidAgent (agent_checked name) s v = tt
Step-IsValidAgent (agent_unknown name) s v = tt

Step-IsValid : {h h' : Hub} (t : Thread) → Step h h' → IsValid h t → IsValid h' t
Step-IsValid (ssh p) s v = Step-IsValidSsh p s v
Step-IsValid (tunnel p) s v = Step-IsValidTunnel p s v
Step-IsValid (agent p) s v = Step-IsValidAgent p s v
Step-IsValid (Points.watch p) s v = tt
Step-IsValid (Points.wait p) s v = tt
Step-IsValid (Points.key p) s v = tt
Step-IsValid (Points.copies f) s v = tt
Step-IsValid (Points.serves name) s v = tt

-- What a goroutine's locals say stays true whatever the others do.
pub Reach-IsValid : {h h' : Hub} (t : Thread) → Reach h h' → IsValid h t → IsValid h' t
Reach-IsValid t here v = v
Reach-IsValid t (next p s) v = Step-IsValid t s (Reach-IsValid t p v)

pub Reach-All :
    {h h' : Hub} (ts : List Thread) → Reach h h' → All (IsValid h) ts → All (IsValid h') ts
Reach-All [] p v = tt
Reach-All (t ∷ ts) p v = (Reach-IsValid t p v.0, Reach-All ts p v.1)
