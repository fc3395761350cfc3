-- ===== src/Hub/Mapping/Laws.antt =====
-- A restarted hub gives each agent the port that it had.
use sshole.Base.{
  ℕ, ◌+◌, ◌<◌, ◌≡◌, refl, sym, ap, ◌∙◌, ◌≢◌, inl, inr, none, some, [], ◌∷◌, ◌++◌, Str, arith,
  str_eq, nat_eq, Option-cases, All, subst,
}
use mathlib.Core.List.{append-nil, append_assoc}
use mathlib.Core.Option.{none-ne-some}
use sshole.Base.Perms.{Pairwise}
use sshole.Hub.Config.{with_defaults}
use sshole.Base.Dict.{
  Dict, lookup, lookup-nil, lookup-cons, lookup-insert, insert, update, NodupKeys, insert-NodupKeys,
}
use sshole.Hub.State.{Ref, Hub, HubConfig, AgentState}
use sshole.Hub.Mapping.{PortMapping, ok, load_agents, agent_ports}
use sshole.Hub.AgentWs.{add_agent}
use sshole.Hub.Start.{new_hub, empty_hub}
use sshole.Hub.Steps.Invariant.{IsWellFormed, AgentsAgree, register-agree}

-- Two entries have neither the name nor the port in common.
abbrev pub Differ : Str × ℕ → Str × ℕ → Type 0
Differ a b = (b.0 ≢ a.0) × (b.1 ≢ a.1)

-- No name and no port comes twice.
abbrev pub IsDistinct : PortMapping → Type 0
IsDistinct pm = Pairwise Differ pm

-- No name and no port of the mapping is in the hub yet.
abbrev IsFresh : PortMapping → Hub → Type 0
IsFresh pm h = All (λ q. (lookup q.0 h.agents ≡ none) × (lookup q.1 h.ports ≡ none)) pm

-- The pointers of the map were handed out.
abbrev IsAllocated : ℕ → Dict Str Ref → Type 0
IsAllocated n d = All (λ q. q.1 < n) d

insert_absent :
    (k : Str) (v : Ref) (d : Dict Str Ref) → lookup k d ≡ none → insert k v d ≡ d ++ (k, v) ∷ []
unfolding insert lookup
insert_absent k v [] e = refl
insert_absent k v ((j, w) ∷ d) e = ground (arith, insert_absent k v d)

IsAllocated-append :
    (n : ℕ) (k : Str) (d : Dict Str Ref) → IsAllocated n d → IsAllocated (n + 1) (d ++ (k, n) ∷ [])
IsAllocated-append n k [] u = (omega arith, tt)
IsAllocated-append n k (_ ∷ d) u = (omega arith, IsAllocated-append n k d u.1)

-- Giving out the next pointer leaves what the map's pointers lead to.
agent_ports-new :
    (d : Dict Str Ref) (h h' : Hub) (a : AgentState)
    → h'.agent_at ≡ update h.agent_at h.next_agent a
    → IsAllocated h.next_agent d
    → agent_ports (d ++ (a.name, h.next_agent) ∷ []) h'
      ≡ agent_ports d h ++ (a.name, a.hub_port) ∷ []
unfolding agent_ports
agent_ports-new [] h h' a e u = ground arith
agent_ports-new ((k, r) ∷ d) h h' a e u = ground (arith, agent_ports-new d h h' a e u.1)

IsFresh-add :
    (n : Str) (p : ℕ) (pm : PortMapping) (h : Hub)
    → All (λ q. (q.0 ≢ n) × (q.1 ≢ p)) pm
    → IsFresh pm h
    → IsFresh pm (add_agent n p h)
IsFresh-add n p [] h d f = tt
IsFresh-add n p ((m, q) ∷ pm) h d f = (
  ground (arith, lookup-insert m n h.next_agent h.agents, lookup-insert q p n h.ports),
  IsFresh-add n p pm h d.1 f.1,
)

load_agents-append :
    (pm : PortMapping) (h : Hub)
    → IsDistinct pm
    → IsFresh pm h
    → IsAllocated h.next_agent h.agents
    → (h' : Hub) × (load_agents pm h ≡ ok h')
      × (agent_ports h'.agents h' ≡ agent_ports h.agents h ++ pm)
unfolding load_agents
load_agents-append [] h d f u = (h, refl, sym (append-nil (agent_ports h.agents h)))
load_agents-append ((n, p) ∷ pm) h d f u =
    let appended = insert_absent n h.next_agent h.agents f.0.0 in
    let (h', e, same) = load_agents-append pm (add_agent n p h) d.1 (IsFresh-add n p pm h d.0 f.1) (
      subst (IsAllocated (h.next_agent + 1)) (sym appended)
        (IsAllocated-append h.next_agent n h.agents u)) in
    (
      h',
      ground (arith, f.0.1, e),
      same
          ∙ ap (λ d'. agent_ports d' (add_agent n p h) ++ pm) appended
          ∙ ap (λ l. l ++ pm)
              (agent_ports-new h.agents h (add_agent n p h)
                (record { name = n; control = none; hub_port = p; connected_at = 0 }) refl u)
          ∙ append_assoc (agent_ports h.agents h) ((n, p) ∷ []) pm,
    )

-- A mapping in which no name and no port comes twice loads, and the hub then has exactly its entries,
-- in its order.
pub new_hub-agent_ports :
    (cfg : HubConfig) (pm : PortMapping)
    → IsDistinct pm
    → (h : Hub) × (new_hub cfg (ok pm) ≡ ok h) × (agent_ports h.agents h ≡ pm)
unfolding new_hub agent_ports
new_hub-agent_ports cfg pm d = load_agents-append pm (empty_hub (with_defaults cfg)) d (fresh pm) tt
  where
    fresh : (pm : PortMapping) → IsFresh pm (empty_hub (with_defaults cfg))
    fresh [] = tt
    fresh (q ∷ pm) = ((lookup-nil q.0, lookup-nil q.1), fresh pm)

-- The entries of the suffix `d` are entries of the map.
abbrev IsPart : Dict Str Ref → Hub → Type 0
IsPart d h = (m : Str) (s : Ref) → lookup m d ≡ some s → lookup m h.agents ≡ some s

IsPart-tail :
    (n : Str) (r : Ref) (d : Dict Str Ref) (h : Hub)
    → lookup n d ≡ none
    → IsPart ((n, r) ∷ d) h
    → IsPart d h
IsPart-tail n r d h absent part m s e = part m s (rw lookup-cons (ground arith))

distinct_from :
    (n : Str) (r : Ref) (d : Dict Str Ref) (h : Hub)
    → AgentsAgree h
    → lookup n h.agents ≡ some r
    → NodupKeys d
    → lookup n d ≡ none
    → IsPart d h
    → All (λ q. (q.0 ≢ n) × (q.1 ≢ (h.agent_at r).hub_port)) (agent_ports d h)
unfolding agent_ports
distinct_from n r [] h v at_n u absent part = tt
distinct_from n r ((m, s) ∷ d) h v at_n u absent part =
    let other : n ≢ m = λ e. ground (arith, lookup-cons n m s d) in
    let at_m : lookup m h.agents ≡ some s = part m s (rw lookup-cons (ground arith)) in
    (
      (λ e. other (sym e), λ e. ground (arith, v n r, v m s)),
      distinct_from n r d h v at_n u.1 (ground (arith, lookup-cons n m s d))
          (IsPart-tail m s d h u.0 part),
    )

agent_ports-IsDistinct :
    (d : Dict Str Ref) (h : Hub)
    → AgentsAgree h
    → NodupKeys d
    → IsPart d h
    → IsDistinct (agent_ports d h)
unfolding agent_ports
agent_ports-IsDistinct [] h v u part = tt
agent_ports-IsDistinct ((n, r) ∷ d) h v u part =
    let rest = IsPart-tail n r d h u.0 part in
    (
      distinct_from n r d h v (part n r (rw lookup-cons (ground arith))) u.1 u.0 rest,
      agent_ports-IsDistinct d h v u.1 rest,
    )

-- The mapping that a well-formed hub saves is one that a new hub loads, and then every agent has the
-- port that it had.
pub restart_keeps_ports :
    (cfg : HubConfig) (h : Hub)
    → IsWellFormed h
    → (h' : Hub) × (new_hub cfg (ok (agent_ports h.agents h)) ≡ ok h')
      × (agent_ports h'.agents h' ≡ agent_ports h.agents h)
restart_keeps_ports cfg h v =
    new_hub-agent_ports cfg (agent_ports h.agents h)
      (agent_ports-IsDistinct h.agents h v.agents_agree v.agents_nodup (λ m s e. e))

load_agents-IsWellFormed :
    (pm : PortMapping) (h h' : Hub) → load_agents pm h ≡ ok h' → IsWellFormed h → IsWellFormed h'
unfolding load_agents
load_agents-IsWellFormed [] h h' e v = subst IsWellFormed (ground arith) v
load_agents-IsWellFormed ((n, p) ∷ pm) h h' e v = elim (Option-cases (lookup p h.ports)) [
  | inr (existing, taken) ↦ absurd (ground arith)
  | inl free ↦ load_agents-IsWellFormed pm (add_agent n p h) h' (ground arith) (record {
    agents_nodup = insert-NodupKeys n h.next_agent h.agents v.agents_nodup;
    agents_agree = register-agree n p h free v.agents_agree;
    pending_agree = v.pending_agree;
    sessions_agree = v.sessions_agree;
  })
]

-- A hub that has loaded its mapping is well-formed: so no two agents share a port.
pub new_hub-IsWellFormed :
    (cfg : HubConfig) (pm : PortMapping) (h : Hub) → new_hub cfg (ok pm) ≡ ok h → IsWellFormed h
unfolding new_hub
new_hub-IsWellFormed cfg pm h e =
    load_agents-IsWellFormed pm (empty_hub (with_defaults cfg)) h e (record {
      agents_nodup = tt;
      agents_agree = λ n r found. absurd (none-ne-some r (sym (lookup-nil n) ∙ found));
      pending_agree = λ s r found. absurd (none-ne-some r (sym (lookup-nil s) ∙ found));
      sessions_agree = λ r. (λ b. cc, inl refl);
    })
