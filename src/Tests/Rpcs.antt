-- ===== src/Tests/Rpcs.antt =====
-- The entry's calls of the hub, over a transport that carries messages as they are.
use sshole.Base.{
  ◌≡◌, refl, ◌⊎◌, inl, inr, true, Option, none, some, List, [], ◌++◌, Str, drop, length, ℕ_discrete,
  str_discrete, if◌then◌else◌,
}
use sshole.Base.Text.{codes, has_prefix}
use sshole.Hub.Auth.{authorized}
use sshole.Hub.Rpc.{
  AgentInfo, AppendKnownHostRequest, Reply, rpc_error, unknown, unauthenticated, list_agents,
  append_known_host,
}
use sshole.Entry.Pick.{EntryConfig, rpc_failed, pick_agent, rpc_authorization, append_request}
use sshole.Rpc.{Unary, list_agents_procedure, append_known_host_procedure}
use sshole.Rpc.Calls.{rpc_path, pick_agent_call, append_known_host_call, entry_calls_hub}
use sshole.Tests.Data.{alpha, secret, online}

-- A request: its path, its header and its message.
abbrev Http : Type 0
Http = Str × (Str × Option AppendKnownHostRequest)

abbrev Answer : Type 0
Answer = Reply (List AgentInfo) ⊎ Reply (Unit {0})

abbrev path_of : Http → Str
path_of r = r.0

abbrev host : Str
host = codes "http://h"

abbrev url_path : Str → Str
url_path url = drop (length host) url

abbrev listed : Answer → Reply (List AgentInfo)
listed (inl r) = r
listed (inr r) = rpc_error unknown []

abbrev appended : Answer → Reply (Unit {0})
appended (inl r) = rpc_error unknown []
appended (inr r) = r

abbrev for_list : Unary Http Answer (Unit {0}) (List AgentInfo) path_of url_path
for_list = record {
  request = λ url auth q. (url_path url, (auth, none));
  serve = λ procedure f r h. (inl (f r.1.0 tt h).0, (f r.1.0 tt h).1);
  response = listed;
  requested_path = λ url auth q. refl;
  served = λ procedure url auth f q h. refl;
}

abbrev message : Option AppendKnownHostRequest → AppendKnownHostRequest
message none = record { agent_name = []; public_key = [] }
message (some q) = q

abbrev for_append : Unary Http Answer AppendKnownHostRequest (Unit {0}) path_of url_path
for_append = record {
  request = λ url auth q. (url_path url, (auth, some q));
  serve = λ procedure f r h. (inr (f r.1.0 (message r.1.1) h).0, (f r.1.0 (message r.1.1) h).1);
  response = appended;
  requested_path = λ url auth q. refl;
  served = λ procedure url auth f q h. refl;
}

abbrev entry_config : EntryConfig
entry_config = record {
  hub_addr = host ++ codes "/";
  token = secret;
  agent_name = alpha;
  entry_port = 22222;
  public_key_path = [];
  private_key_path = [];
}

entry_reaches_hub :
    (has_prefix list_agents_procedure rpc_path ≡ true)
    × (has_prefix append_known_host_procedure rpc_path ≡ true)
    × (pick_agent_call path_of url_path
          (inl (rpc_error unknown []))
          for_list
          for_append
          (λ m. true)
          none
          entry_config
          online
        ≡ (
          (if authorized online.cfg (rpc_authorization entry_config)
              then pick_agent entry_config (some (list_agents online))
              else rpc_failed),
          online,
        ))
    × (append_known_host_call path_of url_path
          (inl (rpc_error unknown []))
          for_list
          for_append
          (λ m. true)
          none
          entry_config
          alpha
          secret
          online
        ≡ (if authorized online.cfg (rpc_authorization entry_config)
            then append_known_host (λ m. true) none (append_request alpha secret) online
            else (rpc_error unauthenticated (codes "unauthorized"), online)))
unfolding str_discrete ℕ_discrete
entry_reaches_hub =
    entry_calls_hub path_of url_path (inl (rpc_error unknown [])) for_list for_append (λ m. true)
      none entry_config alpha secret online refl refl
