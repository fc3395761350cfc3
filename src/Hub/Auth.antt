-- ===== src/Hub/Auth.antt =====
-- The bearer token, as handleAgentWS, handleTunnelWS and rpcAuthInterceptor of pkg/hub check it.
use sshole.Base.{
  ◌≡◌, ◌↔◌, ◌⊎◌, inl, inr, Bool, true, ◌&&◌, [], ◌++◌, arith, Str, ◌==◌, str_eq, if◌then◌else◌,
}
use sshole.Base.Text.{codes, has_prefix, trim_prefix, has_prefix-append, has_prefix-split}
use sshole.Hub.State.{HubConfig}

abbrev pub bearer : Str
bearer = codes "Bearer "

-- `auth` is the header `Authorization`, empty if it is missing.
unfoldable pub authorized : HubConfig → Str → Bool
authorized cfg auth =
    if cfg.auth_token == []
    then true
    else has_prefix auth bearer && trim_prefix auth bearer == cfg.auth_token

-- A request passes exactly if no token is configured or its header is "Bearer " and the token.
pub authorized_iff :
    (cfg : HubConfig) (auth : Str)
    → (authorized cfg auth ≡ true) ↔ ((cfg.auth_token ≡ []) ⊎ (auth ≡ bearer ++ cfg.auth_token))
unfolding authorized
authorized_iff cfg auth = (passes, accepted)
  where
    passes : authorized cfg auth ≡ true → (cfg.auth_token ≡ []) ⊎ (auth ≡ bearer ++ cfg.auth_token)
    passes h = ground (arith, has_prefix-split auth bearer)

    accepted :
        (cfg.auth_token ≡ []) ⊎ (auth ≡ bearer ++ cfg.auth_token) → authorized cfg auth ≡ true
    accepted (inl e) = ground arith
    accepted (inr e) = rw e (ground (arith, has_prefix-append bearer cfg.auth_token))
