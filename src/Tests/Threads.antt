-- ===== src/Tests/Threads.antt =====
-- Goroutines of the hub and agents of one home directory that overlap.
use sshole.Base.{
  ◌≡◌, List, refl, true, none, some, [], ◌∷◌, arith, ℕ_discrete, str_discrete, str_eq, nat_eq, Str,
}
use sshole.Base.Dict.{lookup, insert, erase, lookup-insert, lookup-nil}
use sshole.Hub.AgentWs.{add_agent, attach_control, detach_control}
use sshole.Hub.Forward.{tick, start_forwarding}
use sshole.Hub.Rpc.{online_control}
use sshole.Hub.Sessions.{
  open_message, timeout_check, cleanup_pending, mark_open_sent, send_open, bind_tunnel, ssh_lookup,
  insert_pending, ssh_session,
}
use sshole.Hub.Start.{empty_hub, accepted}
use sshole.Hub.State.{
  send_control, go_watch_pending, Ref, Hub, emit, go_ssh_conn, close_ws, normal_closure, set_agent,
}
use sshole.Hub.Steps.{Reach}
use sshole.Hub.Threads.{
  copies, ssh_sent, agent_attaches, Thread, ssh, watch, tunnel, agent, serves, expired, join,
  bound_to, tunnel_named, entry_found, entry_pending, entry_sent, Input, ssh_start, ssh_found,
  ssh_pending, agent_reads, agent_ends, watching,
}
use sshole.Hub.Threads.Agent.{advance_agent, advance_serves}
use sshole.Hub.Threads.Care.{client_waits, Waits, any_cares}
use sshole.Hub.Threads.Care.Forgotten.{no_session_forgotten}
use sshole.Hub.Threads.Crash.{panics-SystemReach}
use sshole.Hub.Threads.Interleaving.{IsSound, SystemReach-IsSound}
use sshole.Hub.Threads.Online.{any_attends}
use sshole.Hub.Threads.Online.Attended.{online_is_attended}
use sshole.Hub.Threads.Panics.{panics}
use sshole.Hub.Threads.Ssh.{advance_ssh, advance_watch}
use sshole.Hub.Threads.System.{System, advance, SystemReach, here, next, runs}
use sshole.Hub.Threads.Tunnel.{advance_copies, advance_tunnel}
use sshole.Tests.Data.{
  beta, cfg, loaded-IsWellFormed, alpha, sid, digest, loaded, online, online-IsWellFormed,
  alpha_entry, waiting,
}
use sshole.Tunnel.Handshake.{frame, text}
use sshole.Tunnel.Handshake

abbrev answers : Input
answers = record {
  written = true;
  accepted = some 8;
  read = frame text [];
  listen = none;
  now = 4;
  new_sid = sid;
  event = tick;
  accept = accepted 20;
  marshals = true;
}

-- Agent `a` has a listener, and its handler reads from the connection 7.
abbrev before_conn : System
before_conn = record { hub = online; threads = agent (agent_reads alpha 7) ∷ serves alpha ∷ [] }

before_conn-IsSound : IsSound before_conn
before_conn-IsSound = (online-IsWellFormed, ((λ gone. ground (arith, gone, alpha_entry)), (tt, tt)))

abbrev reads_done : Input
reads_done = record answers { read = Handshake.read_failed }

abbrev with_client : Hub
with_client = emit (go_ssh_conn alpha 20) online

abbrev with_session : Hub
with_session = insert_pending (ssh_session sid alpha 20 4 with_client) with_client

abbrev overtaken : System
overtaken = record {
  hub =
      emit (close_ws 7 normal_closure [])
        (set_agent 0 (record (with_session.agent_at 0) { control = none }) with_session);
  threads = serves alpha ∷ ssh (ssh_pending sid 0 0) ∷ [];
}

-- A client connects, the agent is found online, the session is inserted, and the agent goes away.
overtaken-SystemReach : SystemReach digest before_conn overtaken
unfolding advance advance_serves advance_ssh advance_agent ssh_lookup detach_control lookup insert
    ℕ_discrete str_discrete
overtaken-SystemReach =
    let reading : Thread = agent (agent_reads alpha 7) in
    let pending : Thread = ssh (ssh_pending sid 0 0) in
    let others : List Thread = reading ∷ serves alpha ∷ [] in
    let s₁ = next here (runs (reading ∷ []) [] (serves alpha) _ answers refl) in
    let s₂ = next s₁ (runs others [] (ssh (ssh_start alpha 20)) _ answers refl) in
    let s₃ = next s₂ (runs others [] (ssh (ssh_found alpha 20 0)) _ answers refl) in
    let s₄ = next s₃ (runs [] (serves alpha ∷ pending ∷ []) reading _ reads_done refl) in
    next s₄ (runs [] (serves alpha ∷ pending ∷ []) (agent (agent_ends alpha 7)) _ answers refl)

SystemReach-IsSound_example : Reach online overtaken.hub × IsSound overtaken
SystemReach-IsSound_example = SystemReach-IsSound digest overtaken-SystemReach before_conn-IsSound

-- The stretch that sends OPEN dereferences nil there.
panics-SystemReach_example :
    panics (advance digest answers (ssh (ssh_pending sid 0 0)) overtaken.hub) ≡ true
unfolding ℕ_discrete
panics-SystemReach_example =
    panics-SystemReach digest overtaken-SystemReach before_conn-IsSound (serves alpha ∷ []) []
      (ssh (ssh_pending sid 0 0)) answers refl

-- A client connects, the agent is told, and the session's watcher is started.
abbrev watched : System
watched = record {
  hub =
      emit (go_watch_pending sid)
        (mark_open_sent 0 (emit (send_control 7 (open_message sid)) with_session));
  threads = agent (agent_reads alpha 7) ∷ serves alpha ∷ watch (watching sid) ∷ [];
}

watched-SystemReach : SystemReach digest before_conn watched
unfolding advance advance_serves advance_ssh ssh_lookup send_open mark_open_sent lookup insert
    ℕ_discrete str_discrete
watched-SystemReach =
    let reading : Thread = agent (agent_reads alpha 7) in
    let others : List Thread = reading ∷ serves alpha ∷ [] in
    let s₁ = next here (runs (reading ∷ []) [] (serves alpha) _ answers refl) in
    let s₂ = next s₁ (runs others [] (ssh (ssh_start alpha 20)) _ answers refl) in
    let s₃ = next s₂ (runs others [] (ssh (ssh_found alpha 20 0)) _ answers refl) in
    let s₄ = next s₃ (runs others [] (ssh (ssh_pending sid 0 0)) _ answers refl) in
    next s₄ (runs others [] (ssh (ssh_sent sid 0)) _ answers refl)

watched_waits : Waits sid watched.hub
unfolding client_waits mark_open_sent lookup insert ℕ_discrete str_discrete
watched_waits = refl

no_session_forgotten_example : any_cares sid watched.threads ≡ true
no_session_forgotten_example =
    no_session_forgotten digest watched-SystemReach before_conn-IsSound refl sid watched_waits

-- A session of an SSH client waits for the tunnel of `a`, which has found it, and an entry's tunnel asks
-- for a session of the same id.
abbrev same_session : System
same_session = record {
  hub = waiting;
  threads =
      watch (watching sid)
      ∷ tunnel (join alpha sid 30 0)
      ∷ tunnel (tunnel_named alpha sid 60 0)
      ∷ [];
}

-- The client's session times out, the entry's takes its place, and bindTunnel binds the tunnel to it:
-- the goroutines that copy then have no SSH connection.
rebound_panics :
    (s : System) × SystemReach digest same_session s
    × (panics (advance digest answers (copies none) s.hub) ≡ true)
    × ((after : List Thread) × (s.threads ≡ copies none ∷ after))
unfolding advance advance_watch advance_tunnel advance_copies timeout_check cleanup_pending
    mark_open_sent send_open bind_tunnel start_forwarding lookup insert erase ℕ_discrete
    str_discrete
rebound_panics =
    let joining : Thread = tunnel (join alpha sid 30 0) in
    let entering : Thread = tunnel (tunnel_named alpha sid 60 0) in
    let s₁ = next here (runs [] (joining ∷ entering ∷ []) (watch (watching sid)) _ answers refl) in
    let s₂ = next s₁ (runs [] (joining ∷ entering ∷ []) (watch (expired sid)) _ answers refl) in
    let s₃ = next s₂ (runs (joining ∷ []) [] entering _ answers refl) in
    let s₄ =
      next s₃ (runs (joining ∷ []) [] (tunnel (entry_found alpha sid 60 0)) _ answers refl) in
    let s₅ = next s₄ (runs (joining ∷ []) [] (tunnel (entry_pending sid 60 1 0)) _ answers refl) in
    let s₆ = next s₅ (runs (joining ∷ []) [] (tunnel (entry_sent sid 60 1)) _ answers refl) in
    let s₇ = next s₆ (runs [] _ joining _ answers refl) in
    (_, next s₇ (runs [] _ (tunnel (bound_to alpha 30 1)) _ answers refl), refl, (_, refl))

-- The hub has just started, and the handler of `a` has accepted the connection 7.
abbrev dialled : System
dialled = record { hub = loaded; threads = agent (agent_attaches alpha 7) ∷ [] }

dialled-IsSound : IsSound dialled
unfolding lookup insert ℕ_discrete str_discrete
dialled-IsSound = (loaded-IsWellFormed, ((λ gone. ground (arith, gone)), tt))

loaded_offline : (name : Str) → online_control name loaded ≡ none
loaded_offline name = ground (
  arith,
  lookup-nil {V = Ref} name,
  lookup-insert name alpha 0 (empty_hub cfg).agents,
  lookup-insert name beta 1 (add_agent alpha 10000 (empty_hub cfg)).agents,
)

abbrev alpha_attached : System
alpha_attached = record {
  hub = set_agent 0 (record (loaded.agent_at 0) { control = some 7; connected_at = 4 }) loaded;
  threads = agent (agent_reads alpha 7) ∷ [];
}

alpha_attached-SystemReach : SystemReach digest dialled alpha_attached
unfolding advance advance_agent attach_control lookup insert ℕ_discrete str_discrete
alpha_attached-SystemReach = next here (runs [] [] (agent (agent_attaches alpha 7)) _ answers refl)

alpha_online : online_control alpha alpha_attached.hub ≡ some 7
unfolding lookup insert ℕ_discrete str_discrete
alpha_online = refl

online_is_attended_example : any_attends alpha 7 alpha_attached.threads ≡ true
online_is_attended_example =
    online_is_attended digest alpha_attached-SystemReach dialled-IsSound loaded_offline alpha 7
      alpha_online
