-- ===== src/Hub/Steps/TunnelReturns.antt =====
-- handleTunnelWS dereferences nil only for an agent that is offline.
use sshole.Base.{
  ℕ, ◌≡◌, refl, ◌≢◌, inl, inr, Bool, true, false, Option, none, some, Str, arith, nat_eq, str_eq,
  ◌==◌, Option-cases, Bool-cases, subst, sym, ◌∙◌,
}
use sshole.Base.Dict.{lookup}
use sshole.Tunnel.Handshake.{ReadResult, read_failed, frame, text, binary}
use sshole.Hub.State.{Ref, Conn, Hub}
use sshole.Hub.AgentWs.{Request, continue}
use sshole.Hub.Sessions.{send_open, bind_tunnel, BindResult, bind_error, bound}
use sshole.Hub.Sessions.Laws.{bind_tunnel_iff}
use sshole.Hub.Forward.{start_forwarding}
use sshole.Hub.TunnelWs
use sshole.Hub.TunnelWs.{
  TunnelRun, check_tunnel_request, session_of_frame, session_of_header, session_of_request,
  join_session, entry_after_send, begin_session, route_tunnel, handle_tunnel_ws,
}
use sshole.Hub.Steps.Invariant.{IsWellFormed}
use sshole.Hub.Steps.Handlers.{Step-cases}
use sshole.Hub.Steps.Returns.{Returns, ReturnsBySteps, by_steps}
use sshole.Hub.Steps.TunnelHandler.{handle_tunnel_ws-Reaches}

start_forwarding-Returns :
    (r : Ref) (h : Hub)
    → (h.session_at r).tunnel ≢ none
    → Returns (TunnelWs.forwarded (start_forwarding r h))
unfolding start_forwarding
start_forwarding-Returns r h connected = elim (Option-cases (h.session_at r).tunnel) [
  | inl f ↦ absurd (connected f)
  | inr (ws, f) ↦ elim (Option-cases (h.session_at r).ssh_conn) [
    | inl e ↦ rw (f, e, start_forwarding) (_, refl)
    | inr (c, e) ↦ rw (f, e, start_forwarding) (_, refl)
  ]
]

finish_bind-Returns :
    (agent sid : Str) (ws : Conn) (h : Hub) (b : BindResult)
    → bind_tunnel sid ws h ≡ b
    → Returns (TunnelWs.finish_bind agent ws b h)
finish_bind-Returns agent sid ws h (bind_error code key) e = (_, refl)
finish_bind-Returns agent sid ws h (bound r h₁) e =
    let (found, sent, fresh, same) = (bind_tunnel_iff sid ws r h h₁).0 e in
    elim (Bool-cases ((h₁.session_at r).agent_name == agent)) [
      | inl mine ↦ rw mine (start_forwarding-Returns r h₁ (λ gone. ground arith))
      | inr other ↦ rw other (_, refl)
    ]

join_session-Returns :
    (agent sid : Str) (ws : Conn) (r : Ref) (h : Hub)
    → IsWellFormed h
    → lookup sid h.pending ≡ some r
    → Returns (join_session agent sid ws r h)
unfolding join_session
join_session-Returns agent sid ws r h v found = elim (Option-cases (h.session_at r).entry_ws) [
  | inl e ↦ rw (e, join_session) (finish_bind-Returns agent sid ws h (bind_tunnel sid ws h) refl)
  | inr (entry, e) ↦ rw (e, join_session) (_, refl)
]

entry_after_send-Returns :
    (r : Ref) (sid : Str) (ws : Conn) (c : Option Conn) (written : Bool) (h : Hub)
    → c ≢ none
    → Returns (entry_after_send r sid ws (send_open c sid written h))
unfolding entry_after_send send_open
entry_after_send-Returns r sid ws none written h online = absurd (online refl)
entry_after_send-Returns r sid ws (some c) true h online = (_, refl)
entry_after_send-Returns r sid ws (some c) false h online = (_, refl)

route_tunnel-Returns :
    (agent sid : Str) (ws : Conn) (a : Ref) (now : ℕ) (written : Bool) (h : Hub)
    → IsWellFormed h
    → (h.agent_at a).control ≢ none
    → Returns (route_tunnel agent sid ws a now written h)
unfolding route_tunnel begin_session
route_tunnel-Returns agent sid ws a now written h v online =
    elim (Option-cases (lookup sid h.pending)) [
      | inl e ↦
          rw (e, route_tunnel) (entry_after_send-Returns h.next_session sid ws _ written _ online)
      | inr (r, e) ↦ rw (e, route_tunnel) (join_session-Returns agent sid ws r h v e)
    ]

-- What the tests before the upgrade let through.
check_tunnel_request-continue :
    (r : Request) (a : Ref) (h h₁ : Hub)
    → check_tunnel_request r h ≡ continue a h₁
    → (h₁ ≡ h) × (lookup r.x_agent h.agents ≡ some a)
unfolding check_tunnel_request
check_tunnel_request-continue r a h h₁ e = ground arith

session_of_request-continue :
    (sum256 : Str → Str) (r : Request) (ws : Conn) (read : ReadResult) (sid : Str) (h h₁ : Hub)
    → session_of_request sum256 r ws read h ≡ continue sid h₁
    → h₁ ≡ h
unfolding session_of_request session_of_header session_of_frame
session_of_request-continue sum256 r ws read_failed sid h h₁ e = ground arith
session_of_request-continue sum256 r ws (frame text payload) sid h h₁ e = ground arith
session_of_request-continue sum256 r ws (frame binary payload) sid h h₁ e = ground arith

handle_tunnel_ws-Returns :
    (sum256 : Str → Str) (r : Request) (run : TunnelRun) (h : Hub)
    → IsWellFormed h
    → ((a : Ref) → lookup r.x_agent h.agents ≡ some a → (h.agent_at a).control ≢ none)
    → Returns (handle_tunnel_ws sum256 r run h)
unfolding handle_tunnel_ws
handle_tunnel_ws-Returns sum256 r run h v online = elim (Step-cases (check_tunnel_request r h)) [
  | inl (h₁, e) ↦ rw (e, handle_tunnel_ws) (h₁, refl)
  | inr (a, h₁, e) ↦ elim (Option-cases run.accepted) [
    | inl f ↦ rw (e, f, handle_tunnel_ws) (h₁, refl)
    | inr (ws, f) ↦ elim (Step-cases (session_of_request sum256 r ws run.first_read h₁)) [
      | inl (h₂, g) ↦ rw (e, f, g, handle_tunnel_ws) (h₂, refl)
      | inr (sid, h₂, g) ↦
          let (same, found) = check_tunnel_request-continue r a h h₁ e in
          let same' = session_of_request-continue sum256 r ws run.first_read sid h₁ h₂ g ∙ same in
          rw (e, f, g, handle_tunnel_ws)
            (route_tunnel-Returns r.x_agent sid ws a run.now run.written h₂
              (subst IsWellFormed (sym same') v) (λ off. online a found (ground arith)))
    ]
  ]
]

-- From a well-formed hub, where the agent, if it is known, is online, handleTunnelWS returns, by a
-- sequence of steps.
pub handle_tunnel_ws-ReturnsBySteps :
    (sum256 : Str → Str) (r : Request) (run : TunnelRun) (h : Hub)
    → IsWellFormed h
    → ((a : Ref) → lookup r.x_agent h.agents ≡ some a → (h.agent_at a).control ≢ none)
    → ReturnsBySteps h (handle_tunnel_ws sum256 r run h)
handle_tunnel_ws-ReturnsBySteps sum256 r run h v online =
    by_steps _ (handle_tunnel_ws-Returns sum256 r run h v online).1
      (handle_tunnel_ws-Reaches sum256 r run h v)
