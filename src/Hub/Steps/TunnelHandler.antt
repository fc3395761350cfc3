-- ===== src/Hub/Steps/TunnelHandler.antt =====
-- handleTunnelWS as a sequence of steps.
use sshole.Base.{
  ℕ, ◌<◌, ◌≡◌, refl, inl, inr, Bool, true, false, Option, none, some, [], Str, arith, nat_eq,
  str_eq, ◌==◌, Option-cases, Bool-cases, length,
}
use sshole.Base.Dict.{lookup}
use sshole.Hub.Auth.{authorized}
use sshole.Tunnel.Handshake.{
  handshake_size, read_handshake, ReadResult, read_failed, frame, text, binary,
}
use sshole.Hub.State.{Ref, Conn, Hub, pending_closed}
use sshole.Hub.AgentWs.{Request}
use sshole.Hub.Sessions.{send_open, bind_tunnel, BindResult, bound, bind_error}
use sshole.Hub.Forward.{start_forwarding}
use sshole.Hub.TunnelWs
use sshole.Hub.TunnelWs.{
  bind_entry_session, entry_session, TunnelRun, join_session, entry_after_send, begin_session,
  route_tunnel, check_tunnel_request, session_of_frame, session_of_header, session_of_request,
  handle_tunnel_ws,
}
use sshole.Hub.Steps.Invariant.{IsWellFormed, Reach-IsWellFormed}
use sshole.Hub.Steps.{
  effect, entry_inserted, opened, cleaned, tunnel_bound, entry_bound, Reach, here, next,
  Reach-trans,
}
use sshole.Hub.Steps.Handlers.{Reaches, Reaches-trans, StepReaches, Step-cases}

entry_after_send-Reaches :
    (h₀ h : Hub) (r : Ref) (sid : Str) (ws : Conn) (c : Option Conn) (written : Bool)
    → Reach h₀ h
    → r < h.next_session
    → Reaches h₀ (entry_after_send r sid ws (send_open c sid written h))
unfolding entry_after_send send_open
entry_after_send-Reaches h₀ h r sid ws none written p l = tt
entry_after_send-Reaches h₀ h r sid ws (some c) false p l =
    next (next p (cleaned sid pending_closed (inr refl))) (effect _)
entry_after_send-Reaches h₀ h r sid ws (some c) true p l =
    next (next (next (next p (effect _)) (opened r l)) (effect _)) (effect _)

begin_session-Reaches :
    (agent sid : Str) (ws : Conn) (a : Ref) (now : ℕ) (written : Bool) (h : Hub)
    → Reaches h (begin_session agent sid ws a now written h)
unfolding begin_session
begin_session-Reaches agent sid ws a now written h =
    entry_after_send-Reaches h _ h.next_session sid ws _ written
      (next here (entry_inserted sid agent ws now)) (omega arith)

start_forwarding-Reaches :
    (h₀ h : Hub) (r : Ref) → Reach h₀ h → Reaches h₀ (TunnelWs.forwarded (start_forwarding r h))
unfolding start_forwarding
start_forwarding-Reaches h₀ h r p = elim (Option-cases (h.session_at r).tunnel) [
  | inl f ↦ rw (f, start_forwarding) tt
  | inr (ws, f) ↦ elim (Option-cases (h.session_at r).ssh_conn) [
    | inl e ↦ rw (f, e, start_forwarding) p
    | inr (c, e) ↦ rw (f, e, start_forwarding) (next p (effect _))
  ]
]

finish_bind-Reaches :
    (agent sid : Str) (ws : Conn) (h : Hub) (b : BindResult)
    → bind_tunnel sid ws h ≡ b
    → Reaches h (TunnelWs.finish_bind agent ws b h)
finish_bind-Reaches agent sid ws h (bind_error code key) e = next here (effect _)
finish_bind-Reaches agent sid ws h (bound r h₁) e =
    elim (Bool-cases ((h₁.session_at r).agent_name == agent)) [
      | inl same ↦ rw same (start_forwarding-Reaches h h₁ r (next here (tunnel_bound sid ws r e)))
      | inr other ↦ rw other (next (next here (tunnel_bound sid ws r e)) (effect _))
    ]

join_session-Reaches :
    (agent sid : Str) (ws : Conn) (r : Ref) (h : Hub)
    → r < h.next_session
    → Reaches h (join_session agent sid ws r h)
unfolding join_session
join_session-Reaches agent sid ws r h l = elim (Option-cases (h.session_at r).entry_ws) [
  | inl e ↦ rw (e, join_session) (finish_bind-Reaches agent sid ws h (bind_tunnel sid ws h) refl)
  | inr (entry, e) ↦ rw (e, join_session) (next here (entry_bound r ws entry l e))
]

route_tunnel-Reaches :
    (agent sid : Str) (ws : Conn) (a : Ref) (now : ℕ) (written : Bool) (h : Hub)
    → IsWellFormed h
    → Reaches h (route_tunnel agent sid ws a now written h)
unfolding route_tunnel
route_tunnel-Reaches agent sid ws a now written h v = elim (Option-cases (lookup sid h.pending)) [
  | inl e ↦ rw (e, route_tunnel) (begin_session-Reaches agent sid ws a now written h)
  | inr (r, e) ↦
      rw (e, route_tunnel) (join_session-Reaches agent sid ws r h (v.pending_agree sid r e).0)
]

pub check_tunnel_request-Reaches :
    (r : Request) (h : Hub) → StepReaches h (check_tunnel_request r h)
unfolding check_tunnel_request
check_tunnel_request-Reaches r h = elim (Bool-cases (r.x_agent == [])) [
  | inl e ↦ rw (e, check_tunnel_request) (next here (effect _))
  | inr e ↦ elim (Bool-cases (authorized h.cfg r.authorization)) [
    | inr f ↦ rw (e, f, check_tunnel_request) (next here (effect _))
    | inl f ↦ elim (Option-cases (lookup r.x_agent h.agents)) [
      | inl g ↦ rw (e, f, g, check_tunnel_request) (next here (effect _))
      | inr (a, g) ↦ rw (e, f, g, check_tunnel_request) here
    ]
  ]
]

session_of_frame-Reaches :
    (ws : Conn) (read : ReadResult) (h : Hub) → StepReaches h (session_of_frame ws read h)
unfolding session_of_frame
session_of_frame-Reaches ws read_failed h = next here (effect _)
session_of_frame-Reaches ws (frame text payload) h = next here (effect _)
session_of_frame-Reaches ws (frame binary payload) h =
    elim (Bool-cases (length payload == handshake_size)) [
      | inl e ↦ rw e here
      | inr e ↦ rw e (next here (effect _))
    ]

session_of_header-Reaches :
    (sum256 : Str → Str) (ws : Conn) (sid : Str) (read : ReadResult) (h : Hub)
    → StepReaches h (session_of_header sum256 ws sid read h)
unfolding session_of_header
session_of_header-Reaches sum256 ws sid read h =
    elim (Option-cases (read_handshake sum256 read sid)) [
      | inl e ↦ rw (e, session_of_header) here
      | inr (problem, e) ↦ rw (e, session_of_header) (next here (effect _))
    ]

pub session_of_request-Reaches :
    (sum256 : Str → Str) (r : Request) (ws : Conn) (read : ReadResult) (h : Hub)
    → StepReaches h (session_of_request sum256 r ws read h)
unfolding session_of_request
session_of_request-Reaches sum256 r ws read h = elim (Bool-cases (r.x_session == [])) [
  | inl e ↦ rw (e, session_of_request) (session_of_frame-Reaches ws read h)
  | inr e ↦ rw (e, session_of_request) (session_of_header-Reaches sum256 ws r.x_session read h)
]

-- From a well-formed hub handleTunnelWS is a sequence of steps, on every branch.
pub handle_tunnel_ws-Reaches :
    (sum256 : Str → Str) (r : Request) (run : TunnelRun) (h : Hub)
    → IsWellFormed h
    → Reaches h (handle_tunnel_ws sum256 r run h)
unfolding handle_tunnel_ws
handle_tunnel_ws-Reaches sum256 r run h v = elim (Step-cases (check_tunnel_request r h)) [
  | inl (h₁, e) ↦ rw (e, handle_tunnel_ws) (rw e at (check_tunnel_request-Reaches r h))
  | inr (a, h₁, e) ↦
      let p : Reach h h₁ = rw e at (check_tunnel_request-Reaches r h) in
      elim (Option-cases run.accepted) [
        | inl f ↦ rw (e, f, handle_tunnel_ws) p
        | inr (ws, f) ↦ elim (Step-cases (session_of_request sum256 r ws run.first_read h₁)) [
          | inl (h₂, g) ↦
              rw (e, f, g, handle_tunnel_ws)
                (Reach-trans p (rw g at (session_of_request-Reaches sum256 r ws run.first_read h₁)))
          | inr (sid, h₂, g) ↦
              let q : Reach h h₂ =
                Reach-trans p
                  (rw g at (session_of_request-Reaches sum256 r ws run.first_read h₁)) in
              rw (e, f, g, handle_tunnel_ws)
                (Reaches-trans (route_tunnel r.x_agent sid ws a run.now run.written h₂) q (
                  route_tunnel-Reaches r.x_agent sid ws a run.now run.written h₂
                    (Reach-IsWellFormed q v)))
        ]
      ]
]
