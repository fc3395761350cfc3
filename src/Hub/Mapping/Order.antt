-- ===== src/Hub/Mapping/Order.antt =====
-- The mapping is a Go map, and loadMapping ranges over it in any order: which hub comes out, and whether
-- one does, does not depend on that order.
use mathlib.Core.List.{Permᴰ}
use sshole.Base.{
  ℕ, ◌≡◌, refl, ◌≢◌, ◌↔◌, ◌⊎◌, sym, ap, ◌∙◌, Option, none, some, [], ◌∷◌, Str, arith, str_eq,
  nat_eq, Option-cases, All, inl, inr,
}
use sshole.Base.Dict.{Dict, lookup, lookup-insert, lookup-cons, NodupKeys}
use sshole.Base.Perms.{Pairwise, Pairwise-perm}
use sshole.Hub.State.{Ref, Hub, HubConfig}
use sshole.Hub.Config.{with_defaults}
use sshole.Hub.Mapping.{PortMapping, Result, ok, err, MappingError, load_agents, agent_ports}
use sshole.Hub.Mapping.Laws.{Differ, IsDistinct, new_hub-agent_ports}
use sshole.Hub.AgentWs.{add_agent}
use sshole.Hub.Start.{new_hub, empty_hub}

-- The port of an agent that the hub knows.
abbrev pub port_of : Str → Hub → Option ℕ
port_of name h = elim (lookup name h.agents) [ none ↦ none | some r ↦ some (h.agent_at r).hub_port ]

lookup-agent_ports :
    (name : Str) (d : Dict Str Ref) (h : Hub)
    → lookup name (agent_ports d h)
      ≡ elim (lookup name d) [ none ↦ none | some r ↦ some (h.agent_at r).hub_port ]
unfolding agent_ports lookup
lookup-agent_ports name [] h = refl
lookup-agent_ports name (_ ∷ d) h = ground (arith, lookup-agent_ports name d h)

abbrev pub OtherPort : Str × ℕ → Str × ℕ → Type 0
OtherPort a b = b.1 ≢ a.1

-- No port comes twice.
abbrev pub PortsDiffer : PortMapping → Type 0
PortsDiffer pm = Pairwise OtherPort pm

abbrev Free : Hub → Str × ℕ → Type 0
Free h q = lookup q.1 h.ports ≡ none

-- What an entry that loads after another says of both.
both-Free :
    (agent : Str) (port : ℕ) (pm : PortMapping) (h : Hub)
    → All (Free (add_agent agent port h)) pm
    → All (OtherPort (agent, port)) pm × All (Free h) pm
both-Free agent port [] h u = (tt, tt)
both-Free agent port (q ∷ pm) h u =
    let (others, frees) = both-Free agent port pm h u.1 in
    let at_q = lookup-insert q.1 port agent h.ports in
    (((λ same. ground (arith, at_q, u.0)), others), (ground (arith, at_q, u.0), frees))

load_agents-PortsDiffer :
    (pm : PortMapping) (h h' : Hub) → load_agents pm h ≡ ok h' → All (Free h) pm × PortsDiffer pm
unfolding load_agents
load_agents-PortsDiffer [] h h' e = (tt, tt)
load_agents-PortsDiffer ((agent, port) ∷ pm) h h' e = elim (Option-cases (lookup port h.ports)) [
  | inr (existing, taken) ↦ absurd (ground arith)
  | inl free ↦
      let (frees, differ) = load_agents-PortsDiffer pm (add_agent agent port h) h' (ground arith) in
      let (others, frees') = both-Free agent port pm h frees in ((free, frees'), (others, differ))
]

names-Differ :
    (agent : Str) (port : ℕ) (pm : PortMapping)
    → lookup agent pm ≡ none
    → All (OtherPort (agent, port)) pm
    → All (Differ (agent, port)) pm
names-Differ agent port [] e u = tt
names-Differ agent port ((m, q) ∷ pm) e u =
    let at_m = lookup-cons agent m q pm in
    (((λ same. ground (arith, at_m)), u.0), names-Differ agent port pm (ground (arith, at_m)) u.1)

PortsDiffer-IsDistinct : (pm : PortMapping) → NodupKeys pm → PortsDiffer pm → IsDistinct pm
PortsDiffer-IsDistinct [] u d = tt
PortsDiffer-IsDistinct ((agent, port) ∷ pm) u d =
    (names-Differ agent port pm u.0 d.0, PortsDiffer-IsDistinct pm u.1 d.1)

IsDistinct-PortsDiffer : (pm : PortMapping) → IsDistinct pm → PortsDiffer pm
IsDistinct-PortsDiffer [] d = tt
IsDistinct-PortsDiffer (q ∷ pm) d = (second pm d.0, IsDistinct-PortsDiffer pm d.1)
  where
    second : (pm : PortMapping) → All (Differ q) pm → All (OtherPort q) pm
    second [] u = tt
    second (p ∷ pm) u = (u.0.1, second pm u.1)

-- A hub comes out of a mapping exactly if no port comes twice in it, and then each name has the port
-- that the mapping gives it.
pub new_hub_iff :
    (cfg : HubConfig) (pm : PortMapping)
    → NodupKeys pm
    → ((h : Hub) × (new_hub cfg (ok pm) ≡ ok h) × ((name : Str) → port_of name h ≡ lookup name pm))
      ↔ PortsDiffer pm
unfolding new_hub
new_hub_iff cfg pm u = (
  λ p. (load_agents-PortsDiffer pm (empty_hub (with_defaults cfg)) p.0 p.1).1,
  λ d.
      let (h, e, same) = new_hub-agent_ports cfg pm (PortsDiffer-IsDistinct pm u d) in
      (h, e, λ name. sym (lookup-agent_ports name h.agents h) ∙ ap (lookup name) same),
)

pub ok-inj : (g h : Hub) → ◌≡◌ {A = Result Hub} (ok g) (ok h) → g ≡ h
ok-inj g h e = ground arith

pub Result-cases : (r : Result Hub) → ((e : MappingError) × (r ≡ err e)) ⊎ ((h : Hub) × (r ≡ ok h))
Result-cases (err e) = inl (e, refl)
Result-cases (ok h) = inr (h, refl)

-- A hub that comes out of a mapping has the mapping's port for each name.
pub new_hub-port_of :
    (cfg : HubConfig) (pm : PortMapping) (h : Hub)
    → NodupKeys pm
    → new_hub cfg (ok pm) ≡ ok h
    → (name : Str) → port_of name h ≡ lookup name pm
unfolding new_hub
new_hub-port_of cfg pm h u e name =
    let differ = (load_agents-PortsDiffer pm (empty_hub (with_defaults cfg)) h e).1 in
    let (g, loads, same) = (new_hub_iff cfg pm u).1 differ in
    ap (port_of name) (sym (ok-inj g h (sym loads ∙ e))) ∙ same name

IsDistinct-perm : {pm pm' : PortMapping} → Permᴰ pm pm' → IsDistinct pm → IsDistinct pm'
IsDistinct-perm p d =
    Pairwise-perm Differ
      (λ a b differ. ((λ same. differ.0 (sym same)), (λ same. differ.1 (sym same)))) p d

abbrev OtherName : Str × ℕ → Str × ℕ → Type 0
OtherName a b = b.0 ≢ a.0

other_names :
    (agent : Str) (port : ℕ) (pm : PortMapping)
    → lookup agent pm ≡ none
    → All (OtherName (agent, port)) pm
other_names agent port [] e = tt
other_names agent port ((m, q) ∷ pm) e =
    let at_m = lookup-cons agent m q pm in
    ((λ same. ground (arith, at_m)), other_names agent port pm (ground (arith, at_m)))

NodupKeys-Pairwise : (pm : PortMapping) → NodupKeys pm → Pairwise OtherName pm
NodupKeys-Pairwise [] u = tt
NodupKeys-Pairwise ((agent, port) ∷ pm) u =
    (other_names agent port pm u.0, NodupKeys-Pairwise pm u.1)

lookup_reordered :
    (name : Str) {pm pm' : PortMapping}
    → Permᴰ pm pm'
    → Pairwise OtherName pm
    → lookup name pm ≡ lookup name pm'
unfolding lookup
lookup_reordered name Permᴰ.nil d = refl
lookup_reordered name (Permᴰ.cons e p) d = ground (arith, lookup_reordered name p d.1)
lookup_reordered name (Permᴰ.swap e e') d = ground arith
lookup_reordered name (Permᴰ.trans p q) d =
    lookup_reordered name p d
    ∙ lookup_reordered name q (Pairwise-perm OtherName (λ a b differ same. differ (sym same)) p d)

-- What a mapping gives a name does not depend on its order.
pub lookup-perm :
    (name : Str) {pm pm' : PortMapping}
    → Permᴰ pm pm'
    → NodupKeys pm
    → lookup name pm ≡ lookup name pm'
lookup-perm name {pm} p u = lookup_reordered name p (NodupKeys-Pairwise pm u)

-- Whatever the order in which the mapping is ranged over, a hub comes out with the same port for each
-- name.
pub new_hub_any_order :
    (cfg : HubConfig) (pm pm' : PortMapping) (h : Hub)
    → NodupKeys pm
    → Permᴰ pm pm'
    → new_hub cfg (ok pm) ≡ ok h
    → (h' : Hub) × (new_hub cfg (ok pm') ≡ ok h')
      × ((name : Str) → port_of name h' ≡ port_of name h)
unfolding new_hub
new_hub_any_order cfg pm pm' h u p e =
    let differ = (load_agents-PortsDiffer pm (empty_hub (with_defaults cfg)) h e).1 in
    let distinct = PortsDiffer-IsDistinct pm u differ in
    let (h', loads', same') = new_hub-agent_ports cfg pm' (IsDistinct-perm p distinct) in
    (
      h',
      loads',
      λ name.
          sym (lookup-agent_ports name h'.agents h')
          ∙ ap (lookup name) same'
          ∙ sym (lookup-perm name p u)
          ∙ sym (new_hub-port_of cfg pm h u e name),
    )
