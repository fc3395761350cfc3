-- ===== src/Rpc.antt =====
-- pkg/rpc/v1/rpcv1connect/sshole.connect.go: the client and the handler of the HoleService. What
-- connectrpc.com/connect does with one procedure is `Unary`.

pub mod Calls
use mathlib.Core.List.{reverse}
use sshole.Base.{ℕ, ◌≡◌, Bool, List, [], ◌∷◌, ◌++◌, Str, ◌==◌, str_eq, nat_eq, if◌then◌else◌}
use sshole.Base.Text.{codes}
use sshole.Hub.State.{Hub}
use sshole.Hub.Rpc.{AgentInfo, AppendKnownHostRequest, Reply, rpc_error, RpcCode, unimplemented}

-- One procedure by Connect: the HTTP request of a call, the handler around an implementation, and what
-- the caller reads from the answer. An implementation takes the header `Authorization`. The URL of a
-- request is the one that the client was made for, and, where the transport works and the
-- messages are valid, a call gives what the implementation returned.
pub record Unary (Http Answer Req Resp : Type 0) (path_of : Http → Str) (url_path : Str → Str)
    : Type 0 where
  pub request : (url auth : Str) → Req → Http
  pub serve : Str → (Str → Req → Hub → Reply Resp × Hub) → Http → Hub → Answer × Hub
  pub response : Answer → Reply Resp
  pub requested_path : (url auth : Str) (q : Req) → path_of (request url auth q) ≡ url_path url
  pub served :
      (procedure url auth : Str) (f : Str → Req → Hub → Reply Resp × Hub) (q : Req) (h : Hub)
      → (
        response (serve procedure f (request url auth q) h).0,
        (serve procedure f (request url auth q) h).1,
      )
        ≡ f auth q h

abbrev pub hole_service_name : Str
hole_service_name = codes "pkg.rpc.v1.HoleService"

abbrev pub list_agents_procedure : Str
list_agents_procedure = codes "/pkg.rpc.v1.HoleService/ListAgents"

abbrev pub append_known_host_procedure : Str
append_known_host_procedure = codes "/pkg.rpc.v1.HoleService/AppendKnownHost"

abbrev pub service_path : Str
service_path = codes "/pkg.rpc.v1.HoleService/"

abbrev trim_left_slashes : Str → Str
trim_left_slashes [] = []
trim_left_slashes (b ∷ s) = if b == b'/' then trim_left_slashes s else b ∷ s

-- `strings.TrimRight(s, "/")`
abbrev pub trim_right_slashes : Str → Str
trim_right_slashes s = reverse (trim_left_slashes (reverse s))

-- The URLs of its two clients.
pub record HoleServiceClient : Type 0 where
  pub list_agents : Str
  pub append_known_host : Str

unfoldable pub new_hole_service_client : Str → HoleServiceClient
new_hole_service_client base_url =
    let base = trim_right_slashes base_url in
    record {
      list_agents = base ++ list_agents_procedure;
      append_known_host = base ++ append_known_host_procedure;
    }

pub record HoleServiceHandler : Type 0 where
  pub list_agents : Str → Unit {0} → Hub → Reply (List AgentInfo) × Hub
  pub append_known_host : Str → AppendKnownHostRequest → Hub → Reply (Unit {0}) × Hub

abbrev pub unimplemented_hole_service_handler : HoleServiceHandler
unimplemented_hole_service_handler = record {
  list_agents = λ auth q h.
      (rpc_error unimplemented (codes "pkg.rpc.v1.HoleService.ListAgents is not implemented"), h);
  append_known_host = λ auth q h. (
    rpc_error unimplemented (codes "pkg.rpc.v1.HoleService.AppendKnownHost is not implemented"),
    h,
  );
}

module _ {Http Answer : Type 0} (path_of : Http → Str) (url_path : Str → Str) (not_found : Answer)
    (for_list : Unary Http Answer (Unit {0}) (List AgentInfo) path_of url_path)
    (for_append : Unary Http Answer AppendKnownHostRequest (Unit {0}) path_of url_path) where
  -- The handler that NewHoleServiceHandler returns; its path is `service_path`.
  unfoldable pub new_hole_service_handler : HoleServiceHandler → Http → Hub → Answer × Hub
  new_hole_service_handler svc r h =
      if path_of r == list_agents_procedure
      then for_list.serve list_agents_procedure svc.list_agents r h
      else if path_of r == append_known_host_procedure
      then for_append.serve append_known_host_procedure svc.append_known_host r h
      else (not_found, h)

  -- A call of the client's ListAgents that reaches the handler.
  unfoldable pub call_list_agents :
      HoleServiceHandler → HoleServiceClient → Str → Hub → Reply (List AgentInfo) × Hub
  unfolding new_hole_service_handler
  call_list_agents svc client auth h =
      let (answer, h') =
        new_hole_service_handler svc (for_list.request client.list_agents auth tt) h in
      (for_list.response answer, h')

  unfoldable pub call_append_known_host :
      HoleServiceHandler
      → HoleServiceClient
      → Str
      → AppendKnownHostRequest
      → Hub
      → Reply (Unit {0}) × Hub
  unfolding new_hole_service_handler
  call_append_known_host svc client auth q h =
      let (answer, h') =
        new_hole_service_handler svc (for_append.request client.append_known_host auth q) h in
      (for_append.response answer, h')
