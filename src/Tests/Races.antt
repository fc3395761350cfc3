-- ===== src/Tests/Races.antt =====
-- Handlers that overlap, the loop that waits, and starts of the hub, at the hubs of Data.
use sshole.Base.{
  ℕ, ◌≡◌, ◌≢◌, List, ◌↔◌, refl, true, false, Option, none, some, [], ◌∷◌, Str, ℕ_discrete,
  str_discrete, str_eq, nat_eq,
}
use sshole.Base.Dict.{lookup, insert, NodupKeys}
use sshole.Hub.State.{Conn, Hub, no_fs}
use sshole.Hub.Config
use sshole.Hub.Forward.{WaitEvent, timer_fired, tick, wait_for_agent}
use sshole.Hub.Forward.Waiting.{IsAnswered, wait_for_agent-IsAnswered}
use sshole.Hub.AgentWs.{register_agent, registered, continue}
use sshole.Hub.Races.{register_agent_twice}
use sshole.Hub.Mapping.{ok, load_agents}
use sshole.Hub.Mapping.Order.{port_of, PortsDiffer, new_hub_iff}
use mathlib.Core.List.{Memᴰ}
use sshole.Hub.Steps.{Reach}
use sshole.Hub.Steps.Listeners.{Leads, reached_listeners_lead}
use sshole.Hub.Start
use sshole.Hub.Start.{new_hub, start_port_listeners}
use sshole.Hub.Start.Listeners.{IsServed}
use sshole.Cmd.HubMain.{hub_config, default_hub_cli, HubEnd, hub_serves, hub_main}
use sshole.Cmd.HubMain.Serving.{hub_main-IsServed}
use sshole.Tests.Data.{beta, gamma, sid, cfg, mapping, loaded, loaded-new_hub, online, waiting}

abbrev rounds : List (Hub × WaitEvent)
rounds = (waiting, tick) ∷ (online, timer_fired) ∷ []

wait_for_agent-IsAnswered_example :
    (last : Hub × WaitEvent) × (h' : Hub) × Memᴰ last rounds
    × (wait_for_agent sid 60 rounds ≡ some h')
    × IsAnswered sid 60 last.0 h'
wait_for_agent-IsAnswered_example =
    wait_for_agent-IsAnswered sid 60 ((waiting, tick) ∷ []) [] online

register_agent_twice_example :
    (port port' : ℕ) × (h₁ h₂ : Hub) × (register_agent gamma (some 40) online ≡ continue port h₁)
    × (registered gamma h₁ ≡ true)
    × (register_agent gamma (some 41) h₁ ≡ continue port' h₂)
    × (port ≢ port')
    × (lookup port h₂.ports ≡ some gamma)
    × (lookup port' h₂.ports ≡ some gamma)
    × (lookup port h₂.listeners ≡ some 40)
    × (lookup port' h₂.listeners ≡ some 41)
    × (lookup gamma h₂.agents ≡ some h₁.next_agent)
    × ((h₂.agent_at h₁.next_agent).hub_port ≡ port')
register_agent_twice_example = register_agent_twice gamma 40 41 online

mapping-NodupKeys : NodupKeys mapping
unfolding lookup ℕ_discrete str_discrete
mapping-NodupKeys = (refl, (refl, tt))

new_hub_iff_example :
    ((h : Hub) × (new_hub cfg (ok mapping) ≡ ok h)
      × ((name : Str) → port_of name h ≡ lookup name mapping))
    ↔ PortsDiffer mapping
new_hub_iff_example = new_hub_iff cfg mapping mapping-NodupKeys

-- Every port opens, with the listener of the same number.
abbrev opens : ℕ → Option Conn
opens port = some port

abbrev hub_of : HubEnd → Hub
hub_of (hub_serves h) = h
hub_of _ = loaded

abbrev serving : Hub
serving = hub_of (hub_main default_hub_cli (some no_fs) (ok mapping) opens false)

main_serves : hub_main default_hub_cli (some no_fs) (ok mapping) opens false ≡ hub_serves serving
unfolding hub_main new_hub default_hub_cli hub_config Config.with_defaults load_agents lookup insert
    Start.start start_port_listeners ℕ_discrete str_discrete
main_serves = refl

beta_mapped : lookup beta mapping ≡ some 10001
unfolding lookup ℕ_discrete str_discrete
beta_mapped = refl

hub_main-IsServed_example : IsServed opens 10001 beta serving
hub_main-IsServed_example =
    hub_main-IsServed default_hub_cli no_fs mapping opens false serving beta 10001 mapping-NodupKeys
      main_serves beta_mapped

abbrev opened : Hub
opened = (start_port_listeners opens loaded.ports loaded).1

all_open : start_port_listeners opens loaded.ports loaded ≡ (none, opened)
unfolding start_port_listeners insert ℕ_discrete str_discrete
all_open = refl

port_open : lookup 10001 opened.listeners ≡ some 10001
unfolding start_port_listeners insert lookup ℕ_discrete str_discrete
port_open = refl

reached_listeners_lead_example : Leads 10001 opened
reached_listeners_lead_example =
    reached_listeners_lead cfg mapping opens loaded opened opened 10001 10001 loaded-new_hub
      all_open Reach.here port_open
