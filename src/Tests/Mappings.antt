-- ===== src/Tests/Mappings.antt =====
-- The theorems on the mapping file and on ports at the hubs of Data.
use sshole.Base.{
  ◌≡◌, refl, true, Option, none, some, [], ◌∷◌, Str, arith, ℕ_discrete, str_discrete, str_eq,
  nat_eq,
}
use sshole.Base.Dict.{insert}
use sshole.Hub.State.{Hub}
use sshole.Hub.Mapping.{PortMapping, ok, content, agent_ports, save_mapping_file, load_mapping_file}
use sshole.Hub.Mapping.Restart.{restart_from_file, reached_ports_differ}
use sshole.Hub.Start.{new_hub}
use sshole.Tests.Data.{
  alpha, beta, cfg, mapping, loaded, loaded-new_hub, online, online-Reach, online-IsWellFormed,
  alpha_entry,
}

abbrev ports_of_online : PortMapping
ports_of_online = (alpha, 10000) ∷ (beta, 10001) ∷ []

online-agent_ports : agent_ports online.agents online ≡ ports_of_online
unfolding agent_ports insert ℕ_discrete str_discrete
online-agent_ports = refl

-- A file format of names of one byte: the byte and the port.
abbrev to_text : PortMapping → Option Str
to_text [] = some []
to_text ((c ∷ [], p) ∷ pm) = elim (to_text pm) [ none ↦ none | some s ↦ some (c ∷ p ∷ s) ]
to_text ((_, p) ∷ pm) = none

abbrev of_text : Str → Option (Option PortMapping)
of_text [] = some (some [])
of_text (c ∷ []) = none
of_text (c ∷ p ∷ s) = elim (of_text s) [
  | none ↦ none
  | some none ↦ none
  | some (some pm) ↦ some (some ((c ∷ [], p) ∷ pm))
]

abbrev disk_text : Str
disk_text = b'a' ∷ 10000 ∷ b'b' ∷ 10001 ∷ []

reads_back :
    (t : Str)
    → to_text (agent_ports online.agents online) ≡ some t
    → of_text t ≡ some (some (agent_ports online.agents online))
reads_back t e = ground (arith, online-agent_ports)

saved_online :
    save_mapping_file to_text of_text (λ t. true) true (agent_ports online.agents online)
    ≡ ok disk_text
unfolding save_mapping_file
saved_online = rw online-agent_ports refl

restart_from_file_example :
    (h' : Hub) × (new_hub cfg
        (load_mapping_file to_text of_text (λ t. true) true (content disk_text))
      ≡ ok h')
    × (agent_ports h'.agents h' ≡ agent_ports online.agents online)
restart_from_file_example =
    restart_from_file to_text of_text (λ t. true) true cfg online disk_text reads_back
      online-IsWellFormed saved_online

reached_ports_differ_example : alpha ≡ alpha
reached_ports_differ_example =
    reached_ports_differ cfg mapping loaded online alpha alpha 0 0 loaded-new_hub online-Reach
      alpha_entry alpha_entry refl
