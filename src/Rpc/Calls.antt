-- ===== src/Rpc/Calls.antt =====
-- The service that the hub offers (rpcPath and rpcHandler of pkg/hub/rpc.go), called by the entry's
-- pickAgent and appendKnownHost.
use sshole.Base.{
  str_discrete, ℕ_discrete, ◌≡◌, refl, ap, ◌∙◌, inl, inr, Bool, true, Option, none, some, List,
  ◌++◌, Str, str_eq, nat_eq, if◌then◌else◌, Bool-cases,
}
use sshole.Base.Text.{codes, has_prefix}
use sshole.Common.{ControlMessage}
use sshole.Hub.State.{Hub}
use sshole.Hub.Auth.{authorized}
use sshole.Hub.Rpc.{
  AgentInfo, AppendKnownHostRequest, Reply, reply, rpc_error, unauthenticated, list_agents,
  append_known_host, rpc_auth_interceptor,
}
use sshole.Entry.Pick.{
  EntryConfig, PickResult, rpc_failed, pick_agent, rpc_authorization, append_request,
}
use sshole.Rpc.{
  Unary, list_agents_procedure, append_known_host_procedure, service_path, trim_right_slashes,
  new_hole_service_client, HoleServiceHandler, new_hole_service_handler, call_list_agents,
  call_append_known_host,
}

abbrev pub rpc_path : Str
rpc_path = service_path

module _ (marshals : ControlMessage → Bool) (written : Option Str) where
  -- rpcServer, with the interceptor around both methods.
  abbrev pub rpc_server : HoleServiceHandler
  rpc_server = record {
    list_agents = λ auth q h. rpc_auth_interceptor (λ h'. (reply (list_agents h'), h')) auth h;
    append_known_host =
        λ auth q h. rpc_auth_interceptor (append_known_host marshals written q) auth h;
  }

-- What ListAgents gives the caller, `none` being its error.
abbrev replied {ℓ} : {A : Type ℓ} → Reply A → Option A
replied (reply a) = some a
replied (rpc_error code problem) = none

abbrev chosen : EntryConfig → Reply (List AgentInfo) × Hub → PickResult × Hub
chosen cfg r = (pick_agent cfg (replied r.0), r.1)

module _ {Http Answer : Type 0} (path_of : Http → Str) (url_path : Str → Str) (not_found : Answer)
    (for_list : Unary Http Answer (Unit {0}) (List AgentInfo) path_of url_path)
    (for_append : Unary Http Answer AppendKnownHostRequest (Unit {0}) path_of url_path)
    (marshals : ControlMessage → Bool) (written : Option Str) where
  -- rpcHandler
  unfoldable pub rpc_handler : Http → Hub → Answer × Hub
  unfolding new_hole_service_handler
  rpc_handler =
      new_hole_service_handler path_of url_path not_found for_list for_append
        (rpc_server marshals written)

  -- pickAgent, with its call.
  unfoldable pub pick_agent_call : EntryConfig → Hub → PickResult × Hub
  unfolding new_hole_service_client call_list_agents
  pick_agent_call cfg h =
      let client = new_hole_service_client cfg.hub_addr in
      chosen cfg (
        call_list_agents path_of url_path not_found for_list for_append
          (rpc_server marshals written) client (rpc_authorization cfg) h)

  -- appendKnownHost, with its call.
  unfoldable pub append_known_host_call : EntryConfig → Str → Str → Hub → Reply (Unit {0}) × Hub
  unfolding new_hole_service_client call_append_known_host
  append_known_host_call cfg agent_name pub_key h =
      call_append_known_host path_of url_path not_found for_list for_append
        (rpc_server marshals written) (new_hole_service_client cfg.hub_addr) (rpc_authorization cfg)
        (append_request agent_name pub_key) h

  routed_list :
      (svc : HoleServiceHandler) (url auth : Str) (h : Hub)
      → url_path url ≡ list_agents_procedure
      → (let (answer, h') =
            new_hole_service_handler path_of url_path not_found for_list for_append svc
              (for_list.request url auth tt)
              h in
          (for_list.response answer, h'))
        ≡ svc.list_agents auth tt h
  unfolding new_hole_service_handler str_discrete ℕ_discrete
  routed_list svc url auth h lands =
      let path = for_list.requested_path url auth tt ∙ lands in
      rw (path, new_hole_service_handler) (for_list.served _ url auth svc.list_agents tt h)

  routed_append :
      (svc : HoleServiceHandler) (url auth : Str) (q : AppendKnownHostRequest) (h : Hub)
      → url_path url ≡ append_known_host_procedure
      → (let (answer, h') =
            new_hole_service_handler path_of url_path not_found for_list for_append svc
              (for_append.request url auth q)
              h in
          (for_append.response answer, h'))
        ≡ svc.append_known_host auth q h
  unfolding new_hole_service_handler str_discrete ℕ_discrete
  routed_append svc url auth q h lands =
      let path = for_append.requested_path url auth q ∙ lands in
      rw (path, new_hole_service_handler) (for_append.served _ url auth svc.append_known_host q h)

  pick_answered :
      (cfg : EntryConfig) (auth : Str) (h : Hub)
      → chosen cfg ((rpc_server marshals written).list_agents auth tt h)
        ≡ ((if authorized h.cfg auth then pick_agent cfg (some (list_agents h)) else rpc_failed), h)
  unfolding rpc_auth_interceptor pick_agent
  pick_answered cfg auth h = elim (Bool-cases (authorized h.cfg auth)) [
    | inl e ↦ rw (e, rpc_auth_interceptor) refl
    | inr e ↦ rw (e, rpc_auth_interceptor) refl
  ]

  append_answered :
      (auth : Str) (q : AppendKnownHostRequest) (h : Hub)
      → (rpc_server marshals written).append_known_host auth q h ≡ (
          if authorized h.cfg auth
          then append_known_host marshals written q h
          else (rpc_error unauthenticated (codes "unauthorized"), h))
  unfolding rpc_auth_interceptor
  append_answered auth q h = elim (Bool-cases (authorized h.cfg auth)) [
    | inl e ↦ rw (e, rpc_auth_interceptor) refl
    | inr e ↦ rw (e, rpc_auth_interceptor) refl
  ]

  -- An entry whose address of the hub is a URL whose path, the slashes at its end dropped, is empty, so
  -- that each procedure is the path of its call, reaches the two methods, whose paths lie under the one
  -- that the hub mounts: where the hub accepts its header, pickAgent chooses from the agents of the hub,
  -- and the key is appended as AppendKnownHost does; where it does not, both fail, and the hub is left
  -- alone.
  pub entry_calls_hub :
      (cfg : EntryConfig) (agent_name pub_key : Str) (h : Hub)
      → url_path (trim_right_slashes cfg.hub_addr ++ list_agents_procedure) ≡ list_agents_procedure
      → url_path (trim_right_slashes cfg.hub_addr ++ append_known_host_procedure)
        ≡ append_known_host_procedure
      → (has_prefix list_agents_procedure rpc_path ≡ true)
        × (has_prefix append_known_host_procedure rpc_path ≡ true)
        × (pick_agent_call cfg h ≡ (
          (if authorized h.cfg (rpc_authorization cfg)
              then pick_agent cfg (some (list_agents h))
              else rpc_failed),
          h,
        ))
        × (append_known_host_call cfg agent_name pub_key h ≡ (
            if authorized h.cfg (rpc_authorization cfg)
            then append_known_host marshals written (append_request agent_name pub_key) h
            else (rpc_error unauthenticated (codes "unauthorized"), h)))
  unfolding pick_agent_call append_known_host_call call_list_agents call_append_known_host
      new_hole_service_client str_discrete ℕ_discrete
  entry_calls_hub cfg agent_name pub_key h list_lands append_lands =
      let auth = rpc_authorization cfg in
      let svc = rpc_server marshals written in
      let client = new_hole_service_client cfg.hub_addr in
      (
        refl,
        refl,
        ap (chosen cfg) (routed_list svc client.list_agents auth h list_lands)
            ∙ pick_answered cfg auth h,
        routed_append svc client.append_known_host auth (append_request agent_name pub_key) h
              append_lands
            ∙ append_answered auth (append_request agent_name pub_key) h,
      )
