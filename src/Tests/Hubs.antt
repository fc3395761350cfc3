-- ===== src/Tests/Hubs.antt =====
-- The theorems on the hub at the hubs of Data.
use sshole.Base.{
  ℕ, ◌≡◌, ◌≢◌, ◌↔◌, ◌⊎◌, refl, true, none, some, [], ◌++◌, Str, arith, ℕ_discrete, str_discrete,
  str_eq, nat_eq,
}
use sshole.Base.Text.{codes}
use sshole.Base.Dict.{lookup-nil, lookup, update, insert}
use sshole.Tunnel.Handshake.{frame, binary, build_handshake}
use sshole.Hub.State.{Ref, Hub, returned, pending_open_sent, pending_bound}
use sshole.Hub.Auth.{authorized, authorized_iff, bearer}
use sshole.Hub.Ports.{find_available_port_lem, find_available_port, IsFirstFree, first_port}
use sshole.Hub.AgentWs.{
  AgentRun, attach_control, detach_control, register_agent, registered, register_branch, stop,
  continue,
}
use sshole.Hub.AgentWs.Laws.{register_agent_lem, register_agent_failed, reconnect_survives}
use sshole.Hub.Sessions.{bind_tunnel, bound, mark_open_sent}
use sshole.Hub.Sessions.Laws.{bind_tunnel_iff}
use sshole.Hub.TunnelWs.{TunnelRun}
use sshole.Hub.Steps.{Reach, Reach-trans}
use sshole.Hub.Steps.Invariant.{IsWellFormed, Reach-IsWellFormed}
use sshole.Hub.Steps.Tunnels.{HasTunnel, Reach-HasTunnel}
use sshole.Tests.Data.{
  digest, alpha, beta, gamma, sid, cfg, loaded, online, online-Reach, loaded-IsWellFormed,
  online-IsWellFormed, alpha_entry, beta_entry, waiting, waiting-Reach, is_connected,
}

abbrev a_run : TunnelRun
a_run = record {
  accepted = some 30;
  first_read = frame binary (build_handshake digest sid);
  now = 8;
  written = true;
}

abbrev an_agent_run : AgentRun
an_agent_run = record { listen = some 40; written = true; accepted = some 41; now = 9; reads = [] }

alpha_named : alpha ≢ []
alpha_named = ground arith

Reach-IsWellFormed_example : IsWellFormed waiting
Reach-IsWellFormed_example =
    Reach-IsWellFormed {h = loaded} {h' = waiting} (Reach-trans online-Reach waiting-Reach)
      loaded-IsWellFormed

alpha_online :
    (a : Ref) → lookup alpha waiting.agents ≡ some a → (waiting.agent_at a).control ≢ none
unfolding mark_open_sent ℕ_discrete
alpha_online a e off = ground (arith, alpha_entry)

bind_tunnel_iff_example : (bind_tunnel sid 30 waiting ≡ bound 0 is_connected) ↔ (
    (lookup sid waiting.pending ≡ some 0)
    × ((waiting.session_at 0).state ≡ pending_open_sent)
    × ((waiting.session_at 0).tunnel ≡ none)
    × (is_connected ≡ record waiting {
      session_at =
          update waiting.session_at 0
            (record (waiting.session_at 0) { tunnel = some 30; state = pending_bound });
    }))
bind_tunnel_iff_example = bind_tunnel_iff sid 30 0 waiting is_connected

beta_offline : (r : Ref) → lookup beta online.agents ≡ some r → (online.agent_at r).control ≡ none
beta_offline r e = ground (arith, beta_entry)

connected-HasTunnel : HasTunnel 0 30 is_connected
unfolding mark_open_sent ℕ_discrete
connected-HasTunnel = record { allocated = omega arith; from_ssh = refl; connected = refl }

Reach-HasTunnel_example : HasTunnel 0 30 is_connected
Reach-HasTunnel_example =
    Reach-HasTunnel {h = is_connected} {h' = is_connected} {r = 0} {ws = 30} Reach.here
      connected-HasTunnel

find_available_port_lem_example :
    (port : ℕ) × (find_available_port online.ports ≡ some port)
    × IsFirstFree online.ports first_port port
find_available_port_lem_example = find_available_port_lem online.ports

register_agent_lem_example :
    (port : ℕ) × (h' : Hub) × (register_agent gamma (some 40) online ≡ continue port h')
    × IsFirstFree online.ports first_port port
    × (lookup gamma h'.agents ≡ some online.next_agent)
    × ((h'.agent_at online.next_agent).hub_port ≡ port)
    × (lookup port h'.ports ≡ some gamma)
    × (lookup port h'.listeners ≡ some 40)
    × ((other : Str) (r : Ref)
        → other ≢ gamma
        → lookup other online.agents ≡ some r
        → (lookup other h'.agents ≡ some r) × (h'.agent_at r ≡ online.agent_at r))
register_agent_lem_example = register_agent_lem gamma 40 online online-IsWellFormed

register_agent_failed_example :
    (port : ℕ) × (h' : Hub) × (register_agent gamma none online ≡ stop h')
    × (lookup port online.ports ≡ none)
    × (lookup port h'.ports ≡ some gamma)
    × (lookup gamma h'.agents ≡ some online.next_agent)
    × ((h'.agent_at online.next_agent).hub_port ≡ port)
    × (lookup port h'.listeners ≡ none)
    × (registered gamma h' ≡ true)
    × (h'.listeners ≡ online.listeners)
    × ((run : AgentRun) → register_branch gamma run h' ≡ continue tt h')
register_agent_failed_example = register_agent_failed gamma online (λ p free. lookup-nil p)

abbrev first : Hub
first = record online {
  agent_at =
      update online.agent_at 0 (record (online.agent_at 0) { control = some 50; connected_at = 5 });
}

abbrev second : Hub
second = record first {
  agent_at =
      update first.agent_at 0 (record (first.agent_at 0) { control = some 51; connected_at = 6 });
}

attached_first : attach_control alpha 50 5 online ≡ returned first
unfolding attach_control lookup insert ℕ_discrete str_discrete
attached_first = refl

attached_second : attach_control alpha 51 6 first ≡ returned second
unfolding attach_control lookup insert ℕ_discrete str_discrete
attached_second = refl

reconnect_survives_example : detach_control alpha 50 second ≡ returned second
reconnect_survives_example =
    reconnect_survives alpha 50 51 5 6 online first second (ground arith) attached_first
      attached_second

authorized_iff_example :
    (authorized cfg (codes "Bearer s") ≡ true)
    ↔ ((cfg.auth_token ≡ []) ⊎ (codes "Bearer s" ≡ bearer ++ cfg.auth_token))
authorized_iff_example = authorized_iff cfg (codes "Bearer s")
