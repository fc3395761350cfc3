-- ===== src/Hub/Mapping/Restart.antt =====
-- The mapping file from one run of the hub to the next, and the ports of every hub that is reached.
use sshole.Base.{◌≡◌, Bool, Option, some, Str, str_eq, nat_eq, arith}
use sshole.Base.Dict.{lookup}
use sshole.Hub.State.{Ref, Hub, HubConfig}
use sshole.Hub.Mapping.{PortMapping, ok, content, agent_ports, save_mapping_file, load_mapping_file}
use sshole.Hub.Mapping.Laws.{restart_keeps_ports, new_hub-IsWellFormed}
use sshole.Hub.Start.{new_hub}
use sshole.Hub.Steps.{Reach}
use sshole.Hub.Steps.Invariant.{IsWellFormed, Reach-IsWellFormed, hub_port-injective}

-- Where the mapping of a well-formed hub is written to the file, and encoding/json reads back what it
-- wrote, a hub that starts from this file has every agent with the port that it had.
pub restart_from_file :
    (marshal : PortMapping → Option Str) (unmarshal : Str → Option (Option PortMapping))
    (write_file : Str → Bool) (mkdir_all : Bool) (cfg : HubConfig) (h : Hub) (text : Str)
    → ((t : Str)
        → marshal (agent_ports h.agents h) ≡ some t
        → unmarshal t ≡ some (some (agent_ports h.agents h)))
    → IsWellFormed h
    → save_mapping_file marshal unmarshal write_file mkdir_all (agent_ports h.agents h) ≡ ok text
    → (h' : Hub) × (new_hub cfg
          (load_mapping_file marshal unmarshal write_file mkdir_all (content text))
        ≡ ok h')
      × (agent_ports h'.agents h' ≡ agent_ports h.agents h)
unfolding save_mapping_file load_mapping_file
restart_from_file marshal unmarshal write_file mkdir_all cfg h text back v saved =
    let (h', e, same) = restart_keeps_ports cfg h v in (h', ground (arith, e, back text), same)

-- In every hub that is reached from a start, whatever the order of the stretches, no two agents have
-- the same port.
pub reached_ports_differ :
    (cfg : HubConfig) (pm : PortMapping) (h₀ h : Hub) (a b : Str) (r q : Ref)
    → new_hub cfg (ok pm) ≡ ok h₀
    → Reach h₀ h
    → lookup a h.agents ≡ some r
    → lookup b h.agents ≡ some q
    → (h.agent_at r).hub_port ≡ (h.agent_at q).hub_port
    → a ≡ b
reached_ports_differ cfg pm h₀ h a b r q start p at_a at_b same =
    hub_port-injective (Reach-IsWellFormed p (new_hub-IsWellFormed cfg pm h₀ start)) at_a at_b same
