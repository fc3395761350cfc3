-- ===== src/Agent/Requests.antt =====
-- What the agent asks of the hub: httpHeader, controlURL and tunnelURL of pkg/agent/agent.go.
-- net/url is `parse` and `print`; a URL is its scheme, its path and the rest.
use mathlib.Core.List.{append_cancel_left}
use sshole.Base.{
  ◌≡◌, Option, none, some, [], ◌++◌, Str, ◌==◌, str_eq, if◌then◌else◌, true, ◌≢◌, ◌↔◌, arith, inl,
  inr,
}
use sshole.Base.Text.{codes, trim_suffix}
use sshole.Hub.State.{HubConfig}
use sshole.Hub.Auth.{authorized, authorized_iff, bearer}
use sshole.Hub.AgentWs.{Request}

-- A header that is not set reads as empty. HTTP carries the values unchanged.
unfoldable pub http_header : Str → Str → Str → Request
http_header token agent_name session_id = record {
  authorization = if token == [] then [] else codes "Bearer " ++ token;
  x_agent = agent_name;
  x_session = session_id;
}

pub record Url (Rest : Type 0) : Type 0 where
  pub scheme : Str
  pub path : Str
  pub rest : Rest

module _ {Rest : Type 0} (parse : Str → Option (Url Rest)) (print : Url Rest → Str) where
  abbrev pub ws_scheme : Str → Str
  ws_scheme scheme =
      let s = if scheme == codes "http" then codes "ws" else scheme in
      if s == codes "https" then codes "wss" else s

  abbrev pub endpoint : Str → Str → Option Str
  endpoint hub_url name = elim (parse hub_url) [
    | none ↦ none
    | some u ↦ some (
        print
          (record u { path = trim_suffix u.path (codes "/") ++ name; scheme = ws_scheme u.scheme }))
  ]

  unfoldable pub control_url : Str → Option Str
  control_url hub_url = endpoint hub_url (codes "/agent")

  unfoldable pub tunnel_url : Str → Option Str
  tunnel_url hub_url = endpoint hub_url (codes "/tunnel")

-- The hub accepts what an agent with the hub's token sends, and refuses any other token.
pub authorized-http_header :
    (cfg : HubConfig) (token name sid : Str)
    → cfg.auth_token ≢ []
    → token ≢ []
    → (authorized cfg (http_header token name sid).authorization ≡ true) ↔ (token ≡ cfg.auth_token)
unfolding http_header
authorized-http_header cfg token name sid secured given = (
  λ passes. elim ((authorized_iff cfg _).0 passes) [
    | inl open_hub ↦ absurd (secured open_hub)
    | inr e ↦ append_cancel_left bearer token cfg.auth_token (ground arith)
  ],
  λ e. (authorized_iff cfg _).1 (inr (ground arith)),
)
