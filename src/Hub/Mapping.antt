-- ===== src/Hub/Mapping.antt =====
-- pkg/hub/mapping.go, and loadMapping and saveMapping of hub.go. The JSON text of a mapping is read
-- and written by `unmarshal` and `marshal`, which stand for encoding/json at the type PortMapping.
pub mod Laws
pub mod Restart
pub mod Order
use sshole.Base.{
  ℕ, ◌≡◌, Bool, true, false, Option, none, some, List, [], ◌∷◌, Str, ◌==◌, nat_eq, str_eq,
  if◌then◌else◌,
}
use sshole.Base.Dict.{Dict, lookup, insert}
use sshole.Hub.State.{Ref, Hub, AgentState, save_agents, emit, new_agent}

-- `Agents` of PortMapping. A nil map and an empty one are told apart by `Option` where it matters.
abbrev pub PortMapping : Type 0
PortMapping = Dict Str ℕ

-- What `os.ReadFile` finds.
pub data FileRead : Type 0 where
  not_exist read_failed : FileRead
  content : Str → FileRead

pub data MappingError : Type 0 where
  create_directory create_empty load_failed parse_failed marshal_failed write_failed : MappingError
  duplicate_port : ℕ → Str → Str → MappingError

pub data Result {ℓ} (A : Type ℓ) : Type ℓ where
  ok : A → Result A
  err : MappingError → Result A

module _ (marshal : PortMapping → Option Str) (unmarshal : Str → Option (Option PortMapping))
    (write_file : Str → Bool) (mkdir_all : Bool) where
  -- The text that is on disk afterwards.
  unfoldable pub save_mapping_file : PortMapping → Result Str
  save_mapping_file pm = elim (marshal pm) [
    | none ↦ err marshal_failed
    | some text ↦ if write_file text then ok text else err write_failed
  ]

  unfoldable pub load_mapping_file : FileRead → Result PortMapping
  load_mapping_file not_exist =
      if mkdir_all
      then elim (save_mapping_file []) [ err e ↦ err create_empty | ok text ↦ ok [] ]
      else err create_directory
  load_mapping_file read_failed = err load_failed
  load_mapping_file (content text) = elim (unmarshal text) [
    | none ↦ err parse_failed
    | some none ↦ ok []
    | some (some agents) ↦ ok agents
  ]

-- The loop of loadMapping, over the entries in the order in which the map yields them.
unfoldable pub load_agents : PortMapping → Hub → Result Hub
load_agents [] h = ok h
load_agents ((agent, port) ∷ rest) h =
    let r = h.next_agent in
    let h₁ =
      new_agent (record { name = agent; control = none; hub_port = port; connected_at = 0 }) h in
    let h₂ = record h₁ { agents = insert agent r h₁.agents } in
    let more = load_agents rest (record h₂ { ports = insert port agent h₂.ports }) in
    elim (lookup port h₂.ports) [
      | some existing ↦ err (duplicate_port port existing agent)
      | none ↦ more
    ]

-- The map that saveMapping writes: each agent's name with its port.
unfoldable pub agent_ports : Dict Str Ref → Hub → PortMapping
agent_ports [] h = []
agent_ports ((agent, r) ∷ rest) h = (agent, (h.agent_at r).hub_port) ∷ agent_ports rest h

-- saveMapping, with the success of the write as `written`. It ranges over the agents without the lock;
-- here they are read at one moment.
unfoldable pub save_mapping : Bool → Hub → Hub × Bool
unfolding agent_ports
save_mapping written h =
    if written then (emit (save_agents (agent_ports h.agents h)) h, true) else (h, false)
