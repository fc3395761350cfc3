-- ===== src/Cmd/HubMain/Serving.antt =====
-- The hub that main starts serves the agents of its mapping file.
use sshole.Base.{
  Bool, ℕ, ◌≡◌, Option, none, some, Str, arith, str_eq, nat_eq, Option-cases, inl, inr,
}
use sshole.Base.Dict.{lookup, NodupKeys}
use sshole.Hub.State.{BinsFs, Conn, Hub, HubConfig}
use sshole.Hub.Mapping.{PortMapping, ok}
use sshole.Hub.Mapping.Laws.{new_hub-IsWellFormed}
use sshole.Hub.Mapping.Order.{new_hub-port_of, Result-cases}
use sshole.Hub.Start
use sshole.Hub.Start.{
  selected, still_waiting, new_hub, StartEnd, context_done, server_failed, still_waiting, Stopped,
  no_error, server_error, start_error, StartError, start_port_listeners,
}
use sshole.Hub.Start.Listeners.{IsServed, start_port_listeners-IsServed}
use sshole.Cmd.HubMain.{
  background, still_serving, hub_serves, HubCli, hub_config, hub_main, after_start,
}

new_hub-lookup :
    (cfg : HubConfig) (pm : PortMapping) (g : Hub) (name : Str) (port : ℕ)
    → NodupKeys pm
    → new_hub cfg (ok pm) ≡ ok g
    → lookup name pm ≡ some port
    → lookup port g.ports ≡ some name
new_hub-lookup cfg pm g name port u e mapped =
    let agree = (new_hub-IsWellFormed cfg pm g e).agents_agree in
    let same = new_hub-port_of cfg pm g u e name in
    elim (Option-cases (lookup name g.agents)) [
      | inl gone ↦ absurd (ground arith)
      | inr (r, found) ↦ ground (arith, agree name r found)
    ]

start-opened :
    (listen : ℕ → Option Conn) (end : StartEnd) (g h : Hub)
    → Start.start listen end g ≡ (still_serving, h)
    → start_port_listeners listen g.ports g ≡ (none, h)
unfolding Start.start
start-opened listen end g h stopped = go end (start_port_listeners listen g.ports g) stopped
  where
    go :
        (end : StartEnd) (o : Option StartError × Hub)
        → ◌≡◌ {A = Stopped × Hub}
            (elim o.0 [ some e ↦ (start_error e, o.1) | none ↦ (selected end, o.1) ])
            (still_serving, h)
        → o ≡ (none, h)
    go end (some e, g) stopped = absurd (ground arith)
    go still_waiting (none, g) stopped = ground arith
    go context_done (none, g) stopped = absurd (ground arith)
    go server_failed (none, g) stopped = absurd (ground arith)

after_start-serves :
    (stopped : Stopped × Hub) (h : Hub)
    → after_start stopped ≡ hub_serves h
    → stopped ≡ (still_serving, h)
after_start-serves (still_serving, g) h e = ground arith
after_start-serves (no_error, g) h e = absurd (ground arith)
after_start-serves (server_error, g) h e = absurd (ground arith)
after_start-serves (start_error x, g) h e = absurd (ground arith)

-- Where main has come to wait with the hub started, every agent of the mapping file is served on its
-- port: the port is listened on, and the loop that accepts its connections for this agent was started.
pub hub_main-IsServed :
    (cli : HubCli) (fs : BinsFs) (pm : PortMapping) (listen : ℕ → Option Conn) (fails : Bool)
    (h : Hub) (name : Str) (port : ℕ)
    → NodupKeys pm
    → hub_main cli (some fs) (ok pm) listen fails ≡ hub_serves h
    → lookup name pm ≡ some port
    → IsServed listen port name h
unfolding hub_main Start.start
hub_main-IsServed cli fs pm listen fails h name port u e mapped =
    elim (Result-cases (new_hub (hub_config cli fs) (ok pm))) [
      | inl (failure, e') ↦ absurd (ground arith)
      | inr (g, loads) ↦
          let stopped =
            after_start-serves (Start.start listen (background fails) g) h (ground arith) in
          start_port_listeners-IsServed listen g.ports g h port name
            (start-opened listen (background fails) g h stopped)
            (new_hub-lookup (hub_config cli fs) pm g name port u loads mapped)
    ]
