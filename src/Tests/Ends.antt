-- ===== src/Tests/Ends.antt =====
-- The theorems on the handshake, the agent and the entry at concrete values.
use sshole.Base.{
  ◌*◌, ◌≡◌, ◌↔◌, refl, true, Option, none, some, [], ◌∷◌, ◌++◌, Str, arith, ℕ_discrete,
  str_discrete, str_eq, nat_eq, length, drop, take, take-append, drop-append,
}
use Prim.Native.Nat.{min}
use sshole.Base.Text.{codes, contains, trim_space, decimal}
use sshole.Base.Dict.{lookup}
use sshole.Common.{ControlMessage, second}
use sshole.Tunnel.Hex.{encode}
use sshole.Tunnel.Handshake.{
  frame, binary, build_handshake, validate_handshake, session_id_to_16_bytes, without_dashes,
  handshake_magic_size,
}
use sshole.Tunnel.Handshake.Laws.{validate_handshake_iff, encode-session_id_to_16_bytes}
use sshole.Hub.State.{Ref}
use sshole.Hub.AgentWs.{continue}
use sshole.Hub.Rpc.{list_agents}
use sshole.Hub.TunnelWs.{session_of_frame}
use sshole.Hub.TunnelWs.Laws.{session_of_frame_lem}
use sshole.Agent.Config.{AgentConfig, retry_backoff, retry_backoff-min}
use sshole.Agent.Control.{served, connected, failed_after, start_loop}
use sshole.Agent.Control.Laws.{start_loop_recovers, fails, sleeps, start_loop_gives_up}
use sshole.Agent.Keys.{KeyFile, done, content, append_authorized_key, append_authorized_key_lem}
use sshole.Entry.Keys.{ensure_known_host_lem, known_host_entry, ensure_known_host}
use sshole.Entry.Pick.{EntryConfig, pick_agent, picked, agent_not_found}
use sshole.Entry.Pick.Laws.{info_of, pick_agent-list_agents}
use sshole.Tests.Data.{digest, alpha, secret, online}

-- A UUID.
abbrev uuid : Str
uuid = codes "0a1b2c3d-0a1b-0a1b-0a1b-0a1b2c3d4e5f"

validate_handshake_iff_example :
    (validate_handshake digest (build_handshake digest uuid) uuid ≡ none)
    ↔ (build_handshake digest uuid ≡ build_handshake digest uuid)
validate_handshake_iff_example = validate_handshake_iff digest (build_handshake digest uuid) uuid

uuid-length : length (without_dashes uuid) ≡ 32
unfolding without_dashes ℕ_discrete
uuid-length = refl

encode-session_id_to_16_bytes_example :
    encode (session_id_to_16_bytes digest uuid) ≡ without_dashes uuid
unfolding without_dashes ℕ_discrete
encode-session_id_to_16_bytes_example =
    encode-session_id_to_16_bytes digest uuid uuid-length (ground arith)

abbrev payload : Str
payload = codes "SSHOLE02aaaaaaaaaaaaaaaa"

session_of_frame_lem_example :
    (session_of_frame 30 (frame binary payload) online
      ≡ continue (encode (drop handshake_magic_size payload)) online)
    × (session_of_frame 30 (frame binary (build_handshake digest uuid)) online
        ≡ continue (without_dashes uuid) online)
unfolding without_dashes ℕ_discrete
session_of_frame_lem_example =
    session_of_frame_lem digest 30 payload uuid online refl uuid-length (ground arith)

abbrev pub agent_cfg : AgentConfig
agent_cfg = record {
  hub_url = codes "http://h";
  token = secret;
  agent_name = alpha;
  local_port = 22;
  skip_sshd = true;
  timeouts = record {
    pending_timeout = 1;
    tunnel_dial_timeout = 2;
    agent_reconnect_max_retries = 3;
    agent_reconnect_backoff = second;
  };
}

start_loop_recovers_example :
    start_loop agent_cfg 0 (fails 2 (connected [] ∷ fails 1 []))
    ≡ sleeps agent_cfg 0 2 (served [] (start_loop agent_cfg 0 (fails 1 [])))
start_loop_recovers_example = start_loop_recovers agent_cfg 2 0 [] (fails 1 []) (omega arith)

start_loop_gives_up_example :
    start_loop agent_cfg 0 (fails 3 []) ≡ sleeps agent_cfg 0 2 (failed_after 3)
start_loop_gives_up_example = start_loop_gives_up agent_cfg 2 0 [] refl

retry_backoff-min_example : retry_backoff agent_cfg 1 ≡ min (second * 2) (30 * second)
retry_backoff-min_example = retry_backoff-min agent_cfg 1 (omega arith)

-- A text of a message from which it can be read back: the lengths of its first two fields, then all.
abbrev pub write_message : ControlMessage → Str
write_message m = length m.type ∷ length m.session_id ∷ m.type ++ (m.session_id ++ m.known_host)

abbrev pub read_message : Str → Option ControlMessage
read_message [] = none
read_message (a ∷ []) = none
read_message (a ∷ b ∷ s) =
    some
      (record { type = take a s; session_id = take b (drop a s); known_host = drop b (drop a s) })

pub reads_back : (m : ControlMessage) → read_message (write_message m) ≡ some m
reads_back m = ground (
  arith,
  take-append m.type (m.session_id ++ m.known_host),
  drop-append m.type (m.session_id ++ m.known_host),
  take-append m.session_id m.known_host,
  drop-append m.session_id m.known_host,
)

abbrev keys : KeyFile
keys = record {
  home_known = true;
  directory_made = true;
  text = some (codes "old\n");
  readable = true;
  opened = true;
  written = true;
}

abbrev more_keys : KeyFile
more_keys = record keys { text = some (codes "old\nnew\n") }

appended : append_authorized_key (codes " new ") keys ≡ (done, more_keys)
unfolding append_authorized_key trim_space contains ℕ_discrete str_discrete
appended = refl

append_authorized_key_lem_example :
    (contains (content more_keys.text) (trim_space (codes " new ")) ≡ true)
    × ((rest : Str) × (content more_keys.text ≡ content keys.text ++ rest))
    × (more_keys.readable ≡ true
        → append_authorized_key (codes " new ") more_keys ≡ (done, more_keys))
unfolding trim_space ℕ_discrete
append_authorized_key_lem_example =
    append_authorized_key_lem (codes " new ") keys more_keys (ground arith) appended

abbrev known : KeyFile
known = record keys { text = some (codes "old\n[localhost]:22 k\n") }

ensured : ensure_known_host 22 (codes "k") keys ≡ (done, known)
unfolding ensure_known_host known_host_entry contains decimal ℕ_discrete str_discrete
ensured = refl

ensure_known_host_lem_example :
    (contains (content known.text) (known_host_entry 22 (codes "k")) ≡ true)
    × ((rest : Str) × (content known.text ≡ content keys.text ++ rest))
    × (known.readable ≡ true → ensure_known_host 22 (codes "k") known ≡ (done, known))
ensure_known_host_lem_example = ensure_known_host_lem 22 (codes "k") keys known ensured

abbrev pub entry_cfg : EntryConfig
entry_cfg = record {
  hub_addr = codes "http://h";
  token = secret;
  agent_name = alpha;
  entry_port = 22;
  public_key_path = [];
  private_key_path = [];
}

pick_agent-list_agents_example :
    ((r : Ref)
      → lookup alpha online.agents ≡ some r
      → pick_agent entry_cfg (some (list_agents online)) ≡ picked (info_of alpha r online))
    × (lookup alpha online.agents ≡ none
        → pick_agent entry_cfg (some (list_agents online)) ≡ agent_not_found alpha)
pick_agent-list_agents_example = pick_agent-list_agents entry_cfg online (ground arith)
