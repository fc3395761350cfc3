-- ===== src/Hub/Threads/Agent.antt =====
-- The stretches of handleAgentWS, servePort and AppendKnownHost.
use sshole.Base.{
  ℕ, Bool, true, false, ◌||◌, Option, none, some, [], ◌∷◌, if◌then◌else◌, Str, ◌==◌, str_eq,
}
use sshole.Base.Text.{codes, trim_space}
use sshole.Tunnel.Handshake.{ReadResult, read_failed, frame, text, binary}
use sshole.Hub.State.{
  Conn, Hub, Outcome, returned, panicked, emit, close_ws, send_control, go_ssh_conn, normal_closure,
  unsupported_data,
}
use sshole.Hub.AgentWs.{
  Request, stop, continue, check_agent_request, registered, register_agent, serve_and_save,
  attach_control, detach_control,
}
use sshole.Hub.AgentWs
use sshole.Hub.Rpc.{known_host_message}
use sshole.Hub.Sessions.{ssh_lookup}
use sshole.Hub.Start.{accept_error, accepted}
use sshole.Hub.Threads.{
  AgentPoint, agent_start, agent_checked, agent_unknown, agent_added, agent_accepts, agent_attaches,
  agent_reads, agent_ends, KeyPoint, key_start, key_found, ssh_start, ssh, serves, Input, Moved,
  goes, ends,
}

abbrev pub after_agent_check : Request → AgentWs.Step (Unit {0}) → Outcome (Moved AgentPoint)
after_agent_check r (stop h) = ends [] h
after_agent_check r (continue _ h) = goes (agent_checked r.x_agent) h

abbrev pub after_register : Str → AgentWs.Step ℕ → Outcome (Moved AgentPoint)
after_register agent (stop h) = ends [] h
after_register agent (continue port h) = goes (agent_added agent port) h

-- `go h.servePort(…)` runs whether or not the mapping is saved.
abbrev pub after_save : Str → AgentWs.Step (Unit {0}) → Outcome (Moved AgentPoint)
after_save agent (stop h) = ends (serves agent ∷ []) h
after_save agent (continue _ h) =
    returned (record { hub = h; point = some (agent_accepts agent); spawned = serves agent ∷ [] })

abbrev pub after_attach : Str → Conn → Outcome Hub → Outcome (Moved AgentPoint)
after_attach agent ws panicked = panicked
after_attach agent ws (returned h) = goes (agent_reads agent ws) h

abbrev pub after_detach : Conn → Outcome Hub → Outcome (Moved AgentPoint)
after_detach ws panicked = panicked
after_detach ws (returned h) = ends [] (emit (close_ws ws normal_closure []) h)

-- One read of the loop.
abbrev pub after_read : Str → Conn → ReadResult → Hub → Outcome (Moved AgentPoint)
after_read agent ws read_failed h = goes (agent_ends agent ws) h
after_read agent ws (frame text payload) h = goes (agent_reads agent ws) h
after_read agent ws (frame binary payload) h =
    goes (agent_ends agent ws) (emit (close_ws ws unsupported_data (codes "text only")) h)

unfoldable pub advance_agent : Input → AgentPoint → Hub → Outcome (Moved AgentPoint)
advance_agent x (agent_start request) h = after_agent_check request (check_agent_request request h)
advance_agent x (agent_checked agent) h =
    goes (if registered agent h then agent_accepts agent else agent_unknown agent) h
advance_agent x (agent_unknown agent) h = after_register agent (register_agent agent x.listen h)
advance_agent x (agent_added agent port) h =
    after_save agent (serve_and_save agent port x.written h)
advance_agent x (agent_accepts agent) h = elim x.accepted [
  | none ↦ ends [] h
  | some ws ↦ goes (agent_attaches agent ws) h
]
advance_agent x (agent_attaches agent ws) h =
    after_attach agent ws (attach_control agent ws x.now h)
advance_agent x (agent_reads agent ws) h = after_read agent ws x.read h
advance_agent x (agent_ends agent ws) h = after_detach ws (detach_control agent ws h)

-- One Accept of servePort. An error while the context is done ends the loop.
unfoldable pub advance_serves : Input → Str → Hub → Outcome (Moved Str)
advance_serves x agent h = elim x.accept [
  | accept_error true ↦ ends [] h
  | accept_error false ↦ goes agent h
  | accepted conn ↦ returned (record {
    hub = emit (go_ssh_conn agent conn) h;
    point = some agent;
    spawned = ssh (ssh_start agent conn) ∷ [];
  })
]

abbrev pub send_key : Str → Option Conn → Bool → Hub → Outcome (Moved KeyPoint)
send_key key none written h = panicked
send_key key (some c) written h =
    ends [] (if written then emit (send_control c (known_host_message key)) h else h)

-- The answers are left out. The connection is read again after the test.
unfoldable pub advance_key : Input → KeyPoint → Hub → Outcome (Moved KeyPoint)
advance_key x (key_start req) h =
    let key = trim_space req.public_key in
    if req.agent_name == [] || key == [] then ends [] h else elim (ssh_lookup req.agent_name h) [
      | none ↦ ends [] h
      | some a ↦ if x.marshals then goes (key_found key a) h else ends [] h
    ]
advance_key x (key_found key a) h = send_key key (h.agent_at a).control x.written h
