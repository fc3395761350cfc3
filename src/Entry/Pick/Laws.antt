-- ===== src/Entry/Pick/Laws.antt =====
-- What an entry finds in the hub's answer.
use sshole.Base.{◌≡◌, refl, ◌≢◌, Option, none, some, [], ◌∷◌, Str, str_eq, arith, not, is_none}
use sshole.Base.Dict.{Dict, lookup}
use sshole.Hub.State.{Ref, Hub}
use sshole.Hub.Rpc.{AgentInfo, int32, list_agents}
use sshole.Hub.Rpc
use sshole.Entry.Pick.{EntryConfig, picked, agent_not_found, find_agent, pick_agent}

-- What the hub tells of the agent at `r`.
abbrev pub info_of : Str → Ref → Hub → AgentInfo
info_of name r h = record {
  agent_name = name;
  hub_port = int32 (h.agent_at r).hub_port;
  online = not (is_none (h.agent_at r).control);
}

abbrev expected : Str → Option Ref → Hub → Option AgentInfo
expected name none h = none
expected name (some r) h = some (info_of name r h)

find_agent-infos :
    (name : Str) (d : Dict Str Ref) (h : Hub)
    → find_agent name (Rpc.agent_infos d h) ≡ expected name (lookup name d) h
unfolding find_agent Rpc.agent_infos lookup
find_agent-infos name [] h = refl
find_agent-infos name (_ ∷ d) h = ground (arith, find_agent-infos name d h)

-- An entry that names an agent picks it exactly if the hub knows it, and then learns its port as an
-- int32 and whether it is online; else the error names the agent.
pub pick_agent-list_agents :
    (cfg : EntryConfig) (h : Hub)
    → cfg.agent_name ≢ []
    → ((r : Ref)
        → lookup cfg.agent_name h.agents ≡ some r
        → pick_agent cfg (some (list_agents h)) ≡ picked (info_of cfg.agent_name r h))
      × (lookup cfg.agent_name h.agents ≡ none
          → pick_agent cfg (some (list_agents h)) ≡ agent_not_found cfg.agent_name)
unfolding pick_agent list_agents
pick_agent-list_agents cfg h named = (
  λ r e. ground (arith, find_agent-infos cfg.agent_name h.agents h),
  λ e. ground (arith, find_agent-infos cfg.agent_name h.agents h),
)
