-- ===== src/Entry/Pick.antt =====
-- New, pickAgent and appendKnownHost of pkg/entry/entry.go.
pub mod Laws
use sshole.Base.{
  ℕ, ◌≡◌, Bool, true, false, Option, none, some, List, [], ◌∷◌, ◌++◌, Str, ◌==◌, nat_eq, str_eq,
  if◌then◌else◌,
}
use sshole.Base.Text.{codes}
use sshole.Hub.Rpc.{AgentInfo, AppendKnownHostRequest}

pub record EntryConfig : Type 0 where
  pub hub_addr : Str
  pub token : Str
  pub agent_name : Str
  pub entry_port : ℕ
  pub public_key_path : Str
  pub private_key_path : Str

unfoldable pub new : EntryConfig → EntryConfig
new cfg = record cfg { entry_port = if cfg.entry_port == 0 then 22222 else cfg.entry_port }

-- The header `Authorization` of an RPC, empty if it is not set.
unfoldable pub rpc_authorization : EntryConfig → Str
rpc_authorization cfg = if cfg.token == [] then [] else codes "Bearer " ++ cfg.token

pub data PickResult : Type 0 where
  picked : AgentInfo → PickResult
  rpc_failed : PickResult
  multiple_agents : PickResult
  agent_not_found : Str → PickResult

-- The loop that stops at the first agent of the name.
unfoldable pub find_agent : Str → List AgentInfo → Option AgentInfo
find_agent name [] = none
find_agent name (a ∷ rest) = if a.agent_name == name then some a else find_agent name rest

abbrev only_agent : List AgentInfo → PickResult
only_agent (a ∷ []) = picked a
only_agent [] = multiple_agents
only_agent (a ∷ b ∷ rest) = multiple_agents

-- pickAgent; `listed` is what ListAgents returns, `none` being its error.
unfoldable pub pick_agent : EntryConfig → Option (List AgentInfo) → PickResult
pick_agent cfg none = rpc_failed
pick_agent cfg (some agents) =
    if cfg.agent_name == [] then only_agent agents else elim (find_agent cfg.agent_name agents) [
      | none ↦ agent_not_found cfg.agent_name
      | some a ↦ picked a
    ]

-- The request of appendKnownHost.
unfoldable pub append_request : Str → Str → AppendKnownHostRequest
append_request agent_name pub_key = record { agent_name = agent_name; public_key = pub_key }
