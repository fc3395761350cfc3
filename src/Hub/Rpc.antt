-- ===== src/Hub/Rpc.antt =====
-- pkg/hub/rpc.go: the service that entries call. A Connect error is its code and its text; `marshal`
-- is encoding/json at ControlMessage.
use sshole.Base.{
  ℕ, ◌^◌, ◌%◌, Bool, ◌||◌, Option, none, some, List, [], ◌∷◌, Str, ◌==◌, str_eq, if◌then◌else◌, not,
  is_none,
}
use sshole.Base.Text.{codes, trim_space}
use sshole.Base.Dict.{Dict, lookup}
use sshole.Common.{ControlMessage}
use sshole.Hub.State.{Ref, Hub, Conn, send_control, emit}
use sshole.Hub.Auth.{authorized}

-- pkg/rpc/v1/sshole.proto. `hub_port` is an int32 by its bit pattern.
pub record AgentInfo : Type 0 where
  pub agent_name : Str
  pub hub_port : ℕ
  pub online : Bool

pub record AppendKnownHostRequest : Type 0 where
  pub agent_name : Str
  pub public_key : Str

pub data RpcCode : Type 0 where
  invalid_argument unauthenticated unavailable internal unimplemented unknown : RpcCode

pub data Reply {ℓ} (A : Type ℓ) : Type ℓ where
  reply : A → Reply A
  rpc_error : RpcCode → Str → Reply A

-- `int32(port)`
abbrev pub int32 : ℕ → ℕ
int32 n = n % 2 ^ 32

unfoldable pub agent_infos : Dict Str Ref → Hub → List AgentInfo
agent_infos [] h = []
agent_infos ((name, r) ∷ rest) h =
    record {
      agent_name = name;
      hub_port = int32 (h.agent_at r).hub_port;
      online = not (is_none (h.agent_at r).control);
    }
    ∷ agent_infos rest h

unfoldable pub list_agents : Hub → List AgentInfo
list_agents h = agent_infos h.agents h

abbrev pub known_host_message : Str → ControlMessage
known_host_message key = record { type = codes "ADD_KNOWN_HOST"; session_id = []; known_host = key }

-- The agent's connection, where it is online.
abbrev pub online_control : Str → Hub → Option Conn
online_control agent h = elim (lookup agent h.agents) [
  | none ↦ none
  | some r ↦ (h.agent_at r).control
]

-- AppendKnownHost where the agent does not go away in between. `written` is the websocket's error.
unfoldable pub append_known_host :
    (ControlMessage → Bool) → Option Str → AppendKnownHostRequest → Hub → Reply (Unit {0}) × Hub
append_known_host marshals written req h =
    let key = trim_space req.public_key in
    if req.agent_name == [] || key == []
    then (rpc_error invalid_argument (codes "agent_name and public_key required"), h)
    else elim (online_control req.agent_name h) [
      | none ↦ (rpc_error unavailable (codes "agent offline"), h)
      | some c ↦
          if not (marshals (known_host_message key))
          then (rpc_error unknown [], h)
          else elim written [
            | some problem ↦ (rpc_error internal problem, h)
            | none ↦ (reply tt, emit (send_control c (known_host_message key)) h)
          ]
    ]

-- rpcAuthInterceptor around a call.
unfoldable pub rpc_auth_interceptor {ℓ} :
    {A : Type ℓ} → (Hub → Reply A × Hub) → Str → Hub → Reply A × Hub
rpc_auth_interceptor next auth h =
    if not (authorized h.cfg auth)
    then (rpc_error unauthenticated (codes "unauthorized"), h)
    else next h
