-- ===== src/Hub/Start.antt =====
-- NewHub, Start, startPortListeners, servePort and embeddedBinNames of pkg/hub/hub.go.
pub mod Listeners
use sshole.Base.{
  ℕ, Bool, true, false, ◌&&◌, Option, none, some, List, [], ◌∷◌, Str, ◌==◌, nat_eq, str_eq,
  if◌then◌else◌, not,
}
use sshole.Base.Text.{codes}
use sshole.Base.Dict.{Dict, insert}
use sshole.Hub.State.{
  Conn, Hub, HubConfig, DirEntry, BinsFs, no_fs, unreadable_fs, entries, go_serve_port, go_ssh_conn,
  emit, no_agent, no_session,
}
use sshole.Hub.Config.{with_defaults}
use sshole.Hub.Mapping.{PortMapping, Result, ok, err, load_agents}

abbrev pub empty_hub : HubConfig → Hub
empty_hub cfg = record {
  cfg = cfg;
  agents = [];
  ports = [];
  listeners = [];
  pending = [];
  agent_at = λ _. no_agent;
  session_at = λ _. no_session;
  next_agent = 0;
  next_session = 0;
  trace = [];
}

-- NewHub; `loaded` is what LoadMapping returns.
unfoldable pub new_hub : HubConfig → Result PortMapping → Result Hub
unfolding with_defaults load_agents
new_hub cfg (err e) = err e
new_hub cfg (ok pm) = load_agents pm (empty_hub (with_defaults cfg))

unfoldable pub real_names : List DirEntry → List Str
real_names [] = []
real_names (e ∷ rest) =
    let more = real_names rest in
    if not e.is_dir && not (e.entry_name == codes ".gitkeep") then e.entry_name ∷ more else more

unfoldable pub embedded_bin_names : BinsFs → List Str
unfolding real_names
embedded_bin_names no_fs = []
embedded_bin_names unreadable_fs = []
embedded_bin_names (entries es) = real_names es

-- A listener was refused.
pub data StartError : Type 0 where
  listen_error : ℕ → StartError

-- The loop of startPortListeners; `listen` is net.Listen. A failure leaves what was opened before it.
unfoldable pub start_port_listeners : (ℕ → Option Conn) → Dict ℕ Str → Hub → Option StartError × Hub
start_port_listeners listen [] h = (none, h)
start_port_listeners listen ((port, agent) ∷ rest) h = elim (listen port) [
  | none ↦ (some (listen_error port), h)
  | some ln ↦
      start_port_listeners listen rest
        (emit (go_serve_port port agent) (record h { listeners = insert port ln h.listeners }))
]

-- What Accept returns to servePort: an error, with whether the context is done, or a connection.
pub data AcceptEvent : Type 0 where
  accept_error : Bool → AcceptEvent
  accepted : Conn → AcceptEvent

unfoldable pub serve_port : Str → List AcceptEvent → Hub → Hub
serve_port agent [] h = h
serve_port agent (accept_error true ∷ rest) h = h
serve_port agent (accept_error false ∷ rest) h = serve_port agent rest h
serve_port agent (accepted conn ∷ rest) h = serve_port agent rest (emit (go_ssh_conn agent conn) h)

-- The paths of the HTTP server; `rpc_path` comes from the generated code.
unfoldable pub routes : Str → BinsFs → List Str
routes rpc_path fs =
    let handlers = codes "/agent" ∷ codes "/tunnel" ∷ rpc_path ∷ [] in
    codes "/healthz"
    ∷ elim (embedded_bin_names fs) [ [] ↦ handlers | _ ∷ _ ↦ codes "/bins/" ∷ handlers ]

-- What the select at the end of Start finds: the context is done, the HTTP server failed, or neither,
-- and it waits on.
pub data StartEnd : Type 0 where
  context_done server_failed still_waiting : StartEnd

pub data Stopped : Type 0 where
  no_error server_error still_serving : Stopped
  start_error : StartError → Stopped

abbrev pub selected : StartEnd → Stopped
selected context_done = no_error
selected server_failed = server_error
selected still_waiting = still_serving

unfoldable pub start : (ℕ → Option Conn) → StartEnd → Hub → Stopped × Hub
unfolding start_port_listeners
start listen end h =
    let (failure, h₁) = start_port_listeners listen h.ports h in
    elim failure [ some e ↦ (start_error e, h₁) | none ↦ (selected end, h₁) ]
