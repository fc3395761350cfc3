-- ===== src/Tests/Data.antt =====
-- A hub with two agents, of which one is online.
use sshole.Base.{
  ◌≡◌, refl, true, false, none, some, [], ◌∷◌, ◌++◌, Str, arith, ℕ_discrete, str_discrete, str_eq,
  nat_eq,
}
use sshole.Base.Text.{codes}
use sshole.Base.Dict.{lookup, update, insert}
use sshole.Hub.State.{Hub, HubConfig, no_fs, returned, set_agent, pending_bound}
use sshole.Hub.Config
use sshole.Hub.Auth.{authorized}
use sshole.Hub.Mapping.{PortMapping, ok, load_agents}
use sshole.Hub.Mapping.Laws.{IsDistinct, new_hub-IsWellFormed}
use sshole.Hub.AgentWs.{Request, add_agent, attach_control}
use sshole.Hub.Sessions.{insert_pending, mark_open_sent, ssh_session}
use sshole.Hub.Start.{new_hub, empty_hub}
use sshole.Hub.Steps.{Reach, here, next, attached, ssh_inserted, opened}
use sshole.Hub.Steps.Invariant.{IsWellFormed, Reach-IsWellFormed}

-- It stands for SHA-256: any function of the id.
abbrev pub digest : Str → Str
digest s = s ++ s

abbrev pub alpha : Str
alpha = codes "a"

abbrev pub beta : Str
beta = codes "b"

abbrev pub gamma : Str
gamma = codes "c"

abbrev pub secret : Str
secret = codes "s"

abbrev pub sid : Str
sid = codes "1"

abbrev pub cfg : HubConfig
cfg = record {
  auth_token = secret;
  http_addr = codes ":1";
  mapping_file = codes "m";
  pending_timeout = 5;
  tunnel_dial_timeout = 6;
  bins_fs = no_fs;
}

abbrev pub mapping : PortMapping
mapping = (alpha, 10000) ∷ (beta, 10001) ∷ []

abbrev pub loaded : Hub
loaded = add_agent beta 10001 (add_agent alpha 10000 (empty_hub cfg))

pub loaded-new_hub : new_hub cfg (ok mapping) ≡ ok loaded
unfolding new_hub Config.with_defaults load_agents lookup insert ℕ_discrete str_discrete
loaded-new_hub = refl

pub mapping-IsDistinct : IsDistinct mapping
unfolding ℕ_discrete str_discrete
mapping-IsDistinct = (((λ e. ground arith, λ e. ground arith), tt), (tt, tt))

-- Agent `a` is online, on the connection 7.
abbrev pub online : Hub
online = set_agent 0 (record (loaded.agent_at 0) { control = some 7; connected_at = 3 }) loaded

attached_alpha : attach_control alpha 7 3 loaded ≡ returned online
unfolding attach_control lookup insert ℕ_discrete str_discrete
attached_alpha = refl

pub online-Reach : Reach loaded online
online-Reach = next here (attached alpha 7 3 attached_alpha)

pub loaded-IsWellFormed : IsWellFormed loaded
loaded-IsWellFormed = new_hub-IsWellFormed cfg mapping loaded loaded-new_hub

pub online-IsWellFormed : IsWellFormed online
online-IsWellFormed = Reach-IsWellFormed online-Reach loaded-IsWellFormed

pub alpha_entry : lookup alpha online.agents ≡ some 0
unfolding lookup insert ℕ_discrete str_discrete
alpha_entry = refl

pub beta_entry : lookup beta online.agents ≡ some 1
unfolding lookup insert ℕ_discrete str_discrete
beta_entry = refl

pub gamma_entry : lookup gamma online.agents ≡ none
unfolding lookup insert ℕ_discrete str_discrete
gamma_entry = refl

pub no_session_yet : lookup sid online.pending ≡ none
unfolding lookup
no_session_yet = refl

-- A session of an SSH client that waits for the tunnel of `a`.
abbrev pub waiting : Hub
waiting = mark_open_sent 0 (insert_pending (ssh_session sid alpha 20 4 online) online)

pub waiting-Reach : Reach online waiting
waiting-Reach = next (next here (ssh_inserted sid alpha 20 4)) (opened 0 (omega arith))

pub waiting-IsWellFormed : IsWellFormed waiting
waiting-IsWellFormed = Reach-IsWellFormed waiting-Reach online-IsWellFormed

pub sid_entry : lookup sid waiting.pending ≡ some 0
unfolding lookup insert mark_open_sent ℕ_discrete str_discrete
sid_entry = refl

-- The same session, bound to the websocket 30.
abbrev pub is_connected : Hub
is_connected = record waiting {
  session_at =
      update waiting.session_at 0
        (record (waiting.session_at 0) { tunnel = some 30; state = pending_bound });
}

abbrev pub good_request : Request
good_request = record { x_agent = alpha; x_session = sid; authorization = codes "Bearer s" }

abbrev pub bad_request : Request
bad_request = record { x_agent = alpha; x_session = sid; authorization = codes "Bearer x" }

pub refused : authorized online.cfg (codes "Bearer x") ≡ false
unfolding authorized ℕ_discrete str_discrete
refused = refl

pub allowed : authorized online.cfg (codes "Bearer s") ≡ true
unfolding authorized ℕ_discrete str_discrete
allowed = refl
