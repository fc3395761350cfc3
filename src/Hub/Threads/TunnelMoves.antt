-- ===== src/Hub/Threads/TunnelMoves.antt =====
-- The stretches of handleTunnelWS, waitForAgentAndForward and the copy loops go by steps.
use sshole.Base.{
  ◌≡◌, refl, ◌⊎◌, inl, inr, Bool, true, false, Option, none, some, Str, arith, str_eq, nat_eq,
  Option-cases, Bool-cases, ◌==◌,
}
use sshole.Base.Dict.{lookup}
use sshole.Hub.State.{Ref, Conn, Hub, pending_timeout, pending_closed}
use sshole.Hub.AgentWs.{Request, stop, continue}
use sshole.Hub.AgentWs
use sshole.Hub.Sessions.{send_open, bind_tunnel, BindResult, bind_error, bound, is_bound}
use sshole.Hub.Sessions.Laws.{bind_tunnel_iff}
use sshole.Hub.Forward.{
  Forwarding, start_forwarding, start_websocket_forwarding, cleanup, timer_fired, tick, WaitEvent,
}
use sshole.Hub.Steps.{
  effect, entry_inserted, opened, cleaned, tunnel_bound, entry_bound, Reach, here, next,
}
use sshole.Hub.Steps.Invariant.{IsWellFormed}
use sshole.Hub.Steps.Handlers.{StepReaches}
use sshole.Hub.Steps.TunnelHandler.{check_tunnel_request-Reaches, session_of_request-Reaches}
use sshole.Hub.Threads.{
  TunnelPoint, tunnel_start, tunnel_checked, tunnel_accepted, tunnel_named, join, bound_to,
  entry_found, entry_pending, entry_unsent, entry_sent, WaitPoint, waiting, wait_expired, Input,
}
use sshole.Hub.Threads.Tunnel.{
  advance_tunnel, advance_wait, advance_copies, after_bind, after_forwarding, after_entry_open,
  after_check, after_name, wait_tick, after_cleanup,
}
use sshole.Hub.Threads.Valid.{IsValidTunnel, Named}
use sshole.Hub.Threads.Moves.{MovesBySteps, Anywhere}

after_check-MovesBySteps :
    (r : Request) (h : Hub) (s : AgentWs.Step Ref)
    → StepReaches h s
    → MovesBySteps IsValidTunnel h (after_check r s)
after_check-MovesBySteps r h (stop h') p = (p, tt, tt)
after_check-MovesBySteps r h (continue a h') p = (p, tt, tt)

after_name-MovesBySteps :
    (name : Str) (ws : Conn) (a : Ref) (h : Hub) (s : AgentWs.Step Str)
    → StepReaches h s
    → MovesBySteps IsValidTunnel h (after_name name ws a s)
after_name-MovesBySteps name ws a h (stop h') p = (p, tt, tt)
after_name-MovesBySteps name ws a h (continue sid h') p = (p, tt, tt)

after_bind-MovesBySteps :
    (name sid : Str) (ws : Conn) (h : Hub) (b : BindResult)
    → IsWellFormed h
    → bind_tunnel sid ws h ≡ b
    → MovesBySteps IsValidTunnel h (after_bind name ws b h)
after_bind-MovesBySteps name sid ws h (bind_error code key) v e = (next here (effect _), tt, tt)
after_bind-MovesBySteps name sid ws h (bound r h₁) v e =
    let (found, sent, fresh, same) = (bind_tunnel_iff sid ws r h h₁).0 e in
    (
      next here (tunnel_bound sid ws r e),
      (ground (arith, v.pending_agree sid r found), λ gone. ground arith),
      tt,
    )

after_forwarding-MovesBySteps :
    (r : Ref) (h : Hub) → MovesBySteps IsValidTunnel h (after_forwarding (start_forwarding r h))
unfolding start_forwarding
after_forwarding-MovesBySteps r h = elim (Option-cases (h.session_at r).tunnel) [
  | inl f ↦ rw (f, start_forwarding) tt
  | inr (ws, f) ↦ elim (Option-cases (h.session_at r).ssh_conn) [
    | inl e ↦ rw (f, e, start_forwarding) (here, tt, (tt, tt))
    | inr (c, e) ↦ rw (f, e, start_forwarding) (next here (effect _), tt, (tt, tt))
  ]
]

after_entry_open-MovesBySteps :
    (sid : Str) (ws : Conn) (r : Ref) (c : Option Conn) (written : Bool) (h : Hub)
    → Named sid r h
    → MovesBySteps IsValidTunnel h (after_entry_open sid ws r (send_open c sid written h))
unfolding send_open
after_entry_open-MovesBySteps sid ws r none written h l = tt
after_entry_open-MovesBySteps sid ws r (some c) true h l = (next here (effect _), l, tt)
after_entry_open-MovesBySteps sid ws r (some c) false h l = (here, tt, tt)

pub advance_tunnel-MovesBySteps :
    (sum256 : Str → Str) (x : Input) (p : TunnelPoint) (h : Hub)
    → IsWellFormed h
    → IsValidTunnel h p
    → MovesBySteps IsValidTunnel h (advance_tunnel sum256 x p h)
unfolding advance_tunnel
advance_tunnel-MovesBySteps sum256 x (tunnel_start request) h w v =
    after_check-MovesBySteps request h _ (check_tunnel_request-Reaches request h)
advance_tunnel-MovesBySteps sum256 x (tunnel_checked request a) h w v =
    elim (Option-cases x.accepted) [
      | inl e ↦ rw (e, advance_tunnel) (here, tt, tt)
      | inr (ws, e) ↦ rw (e, advance_tunnel) (here, tt, tt)
    ]
advance_tunnel-MovesBySteps sum256 x (tunnel_accepted request a ws) h w v =
    after_name-MovesBySteps request.x_agent ws a h _
      (session_of_request-Reaches sum256 request ws x.read h)
advance_tunnel-MovesBySteps sum256 x (tunnel_named name sid ws a) h w v =
    elim (Option-cases (lookup sid h.pending)) [
      | inl e ↦ rw (e, advance_tunnel) (here, tt, tt)
      | inr (r, e) ↦ rw (e, advance_tunnel) (here, (w.pending_agree sid r e).0, tt)
    ]
advance_tunnel-MovesBySteps sum256 x (join name sid ws r) h w v =
    elim (Option-cases (h.session_at r).entry_ws) [
      | inl e ↦
          rw (e, advance_tunnel)
            (after_bind-MovesBySteps name sid ws h (bind_tunnel sid ws h) w refl)
      | inr (entry, e) ↦ rw (e, advance_tunnel) (next here (entry_bound r ws entry v e), tt, tt)
    ]
advance_tunnel-MovesBySteps sum256 x (bound_to name ws r) h w v =
    elim (Bool-cases ((h.session_at r).agent_name == name)) [
      | inl e ↦ rw (e, advance_tunnel) (after_forwarding-MovesBySteps r h)
      | inr e ↦ rw (e, advance_tunnel) (next here (effect _), tt, tt)
    ]
advance_tunnel-MovesBySteps sum256 x (entry_found name sid ws a) h w v =
    (next here (entry_inserted sid name ws x.now), (omega arith, ground arith), tt)
advance_tunnel-MovesBySteps sum256 x (entry_pending sid ws r a) h w v =
    after_entry_open-MovesBySteps sid ws r (h.agent_at a).control x.written h v
advance_tunnel-MovesBySteps sum256 x (entry_unsent sid ws) h w v =
    (next (next here (cleaned sid pending_closed (inr refl))) (effect _), tt, tt)
advance_tunnel-MovesBySteps sum256 x (entry_sent sid ws r) h w v =
    (next (next (next here (opened r v.0)) (effect _)) (effect _), tt, (tt, (tt, tt)))

wait_tick-MovesBySteps :
    (sid : Str) (entry : Conn) (r : Ref) (h : Hub)
    → MovesBySteps Anywhere h (wait_tick sid entry r h)
unfolding wait_tick start_websocket_forwarding
wait_tick-MovesBySteps sid entry r h = elim (Option-cases (h.session_at r).tunnel) [
  | inl e ↦ rw (e, wait_tick) (here, tt, tt)
  | inr (ws, e) ↦ elim (Bool-cases (is_bound (h.session_at r).state)) [
    | inl f ↦ rw (e, f, wait_tick) (next here (effect _), tt, (tt, tt))
    | inr f ↦ rw (e, f, wait_tick) (here, tt, tt)
  ]
]

event_cases : (e : WaitEvent) → (e ≡ timer_fired) ⊎ (e ≡ tick)
event_cases timer_fired = inl refl
event_cases tick = inr refl

pub advance_wait-MovesBySteps :
    (x : Input) (p : WaitPoint) (h : Hub) → MovesBySteps Anywhere h (advance_wait x p h)
unfolding advance_wait
advance_wait-MovesBySteps x (waiting sid entry) h = elim (event_cases x.event) [
  | inl e ↦ rw (e, advance_wait) (next here (effect _), tt, tt)
  | inr e ↦ elim (Option-cases (lookup sid h.pending)) [
    | inl f ↦ rw (e, f, advance_wait) (next here (effect _), tt, tt)
    | inr (r, f) ↦ rw (e, f, advance_wait) (wait_tick-MovesBySteps sid entry r h)
  ]
]
advance_wait-MovesBySteps x (wait_expired sid) h =
    (next here (cleaned sid pending_timeout (inl refl)), tt, tt)

pub cleanup-Reach : (f : Forwarding) (h : Hub) → Reach h (cleanup f h).1
unfolding cleanup
cleanup-Reach f h = elim (Bool-cases f.closed) [
  | inl e ↦ rw (e, cleanup) here
  | inr e ↦ elim (Option-cases f.session) [
    | inl g ↦ rw (e, g, cleanup) (next (next here (effect _)) (effect _))
    | inr (sid, g) ↦
        rw (e, g, cleanup)
          (next (next (next here (effect _)) (effect _)) (cleaned sid pending_closed (inr refl)))
  ]
]

after_cleanup-MovesBySteps :
    (closed : Bool) (h : Hub) (p : Forwarding × Hub)
    → Reach h p.1
    → MovesBySteps Anywhere h (after_cleanup closed p)
after_cleanup-MovesBySteps true h (f, h') p = (p, tt, tt)
after_cleanup-MovesBySteps false h (f, h') p = (p, tt, tt)

pub advance_copies-MovesBySteps :
    (f : Option Forwarding) (h : Hub) → MovesBySteps Anywhere h (advance_copies f h)
unfolding advance_copies
advance_copies-MovesBySteps none h = tt
advance_copies-MovesBySteps (some f) h = after_cleanup-MovesBySteps f.closed h _ (cleanup-Reach f h)
