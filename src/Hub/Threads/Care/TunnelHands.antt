-- ===== src/Hub/Threads/Care/TunnelHands.antt =====
-- The stretches of handleTunnelWS, waitForAgentAndForward and the copy loops hand each session that
-- waits on.
use sshole.Base.{
  arith, ◌≡◌, refl, inl, inr, Bool, true, false, Option, none, some, Str, str_eq, nat_eq, ◌==◌,
  Option-cases, Bool-cases,
}
use sshole.Base.Dict.{lookup}
use sshole.Hub.State.{Ref, Conn, Hub, pending_closed}
use sshole.Hub.AgentWs.{Request, stop, continue}
use sshole.Hub.AgentWs
use sshole.Hub.Sessions.{send_open, bind_tunnel, BindResult, bind_error, bound}
use sshole.Hub.Forward.{start_forwarding}
use sshole.Hub.TunnelWs.{entry_session}
use sshole.Hub.Steps.Invariant.{IsWellFormed}
use sshole.Hub.Threads.{
  tunnel, TunnelPoint, tunnel_start, tunnel_checked, tunnel_accepted, tunnel_named, join, bound_to,
  entry_found, entry_pending, entry_unsent, entry_sent, Input,
}
use sshole.Hub.Threads.Tunnel.{
  advance_tunnel, after_bind, after_forwarding, after_entry_open, after_check, after_name,
}
use sshole.Hub.Threads.System.{as_threads}
use sshole.Hub.Threads.Valid.{IsValidTunnel}
use sshole.Hub.Threads.Care.{
  client_waits, Waits, insert_pending-Waits, cleanup_pending-Waits, mark_open_sent-Waits,
  bind_tunnel-Waits, bind_entry_session-Waits,
}
use sshole.Hub.Threads.Checks.{
  OnlyTrace, After, OnlyTrace-After, check_tunnel_request-OnlyTrace, session_of_request-OnlyTrace,
}
use sshole.Hub.Threads.Care.Hands.{HandsOn}

-- No session waits after a part of a handler that did not wait before.
abbrev pub NoneWaits {ℓ} : {A : Type ℓ} → Hub → AgentWs.Step A → Type 0
NoneWaits h s = After (λ h'. (sid : Str) → Waits sid h' → Waits sid h) s

pub OnlyTrace-NoneWaits {ℓ} :
    {A : Type ℓ} (h : Hub) (s : AgentWs.Step A) → OnlyTrace h s → NoneWaits h s
unfolding client_waits
OnlyTrace-NoneWaits h s =
    OnlyTrace-After (λ h'. (sid : Str) → Waits sid h' → Waits sid h) h s (λ ts sid u. u)

after_check-HandsOn :
    (r : Request) (h : Hub) (s : AgentWs.Step Ref)
    → NoneWaits h s
    → HandsOn h (tunnel (tunnel_start r)) (as_threads tunnel (after_check r s))
after_check-HandsOn r h (stop h') keeps = λ sid u. inr (keeps sid u, refl)
after_check-HandsOn r h (continue a h') keeps = λ sid u. inr (keeps sid u, refl)

after_name-HandsOn :
    (r : Request) (ws : Conn) (a : Ref) (h : Hub) (s : AgentWs.Step Str)
    → NoneWaits h s
    → HandsOn h (tunnel (tunnel_accepted r a ws)) (as_threads tunnel (after_name r.x_agent ws a s))
after_name-HandsOn r ws a h (stop h') keeps = λ sid u. inr (keeps sid u, refl)
after_name-HandsOn r ws a h (continue key h') keeps = λ sid u. inr (keeps sid u, refl)

after_bind-HandsOn :
    (name key : Str) (ws : Conn) (r : Ref) (h : Hub) (b : BindResult)
    → bind_tunnel key ws h ≡ b
    → HandsOn h (tunnel (join name key ws r)) (as_threads tunnel (after_bind name ws b h))
unfolding client_waits
after_bind-HandsOn name key ws r h (bind_error code k) e = λ sid u. inr (u, refl)
after_bind-HandsOn name key ws r h (bound q h₁) e =
    λ sid u. inr (bind_tunnel-Waits key ws q h h₁ sid e u, refl)

after_forwarding-HandsOn :
    (name : Str) (ws : Conn) (r : Ref) (h : Hub)
    → HandsOn h
        (tunnel (bound_to name ws r))
        (as_threads tunnel (after_forwarding (start_forwarding r h)))
unfolding start_forwarding client_waits
after_forwarding-HandsOn name ws r h = elim (Option-cases (h.session_at r).tunnel) [
  | inl f ↦ rw (f, start_forwarding) tt
  | inr (ws', f) ↦ elim (Option-cases (h.session_at r).ssh_conn) [
    | inl e ↦ rw (f, e, start_forwarding) (λ sid u. inr (u, refl))
    | inr (c, e) ↦ rw (f, e, start_forwarding) (λ sid u. inr (u, refl))
  ]
]

after_entry_open-HandsOn :
    (key : Str) (ws : Conn) (r a : Ref) (c : Option Conn) (written : Bool) (h : Hub)
    → HandsOn h
        (tunnel (entry_pending key ws r a))
        (as_threads tunnel (after_entry_open key ws r (send_open c key written h)))
unfolding send_open client_waits
after_entry_open-HandsOn key ws r a none written h = tt
after_entry_open-HandsOn key ws r a (some c) true h = λ sid u. inr (u, refl)
after_entry_open-HandsOn key ws r a (some c) false h = λ sid u. inr (u, refl)

pub advance_tunnel-HandsOn :
    (sum256 : Str → Str) (x : Input) (p : TunnelPoint) (h : Hub)
    → IsWellFormed h
    → IsValidTunnel h p
    → HandsOn h (tunnel p) (as_threads tunnel (advance_tunnel sum256 x p h))
unfolding advance_tunnel client_waits
advance_tunnel-HandsOn sum256 x (tunnel_start r) h w v =
    after_check-HandsOn r h _ (OnlyTrace-NoneWaits h _ (check_tunnel_request-OnlyTrace r h))
advance_tunnel-HandsOn sum256 x (tunnel_checked r a) h w v = elim (Option-cases x.accepted) [
  | inl e ↦ rw (e, advance_tunnel) (λ sid u. inr (u, refl))
  | inr (ws, e) ↦ rw (e, advance_tunnel) (λ sid u. inr (u, refl))
]
advance_tunnel-HandsOn sum256 x (tunnel_accepted r a ws) h w v =
    after_name-HandsOn r ws a h _
      (OnlyTrace-NoneWaits h _ (session_of_request-OnlyTrace sum256 r ws x.read h))
advance_tunnel-HandsOn sum256 x (tunnel_named name key ws a) h w v =
    elim (Option-cases (lookup key h.pending)) [
      | inl e ↦ rw (e, advance_tunnel) (λ sid u. inr (u, refl))
      | inr (r, e) ↦ rw (e, advance_tunnel) (λ sid u. inr (u, refl))
    ]
advance_tunnel-HandsOn sum256 x (join name key ws r) h w v =
    elim (Option-cases (h.session_at r).entry_ws) [
      | inl e ↦ rw (e, advance_tunnel) (after_bind-HandsOn name key ws r h _ refl)
      | inr (entry, e) ↦
          rw (e, advance_tunnel) (λ sid u. inr (bind_entry_session-Waits r ws h sid u, refl))
    ]
advance_tunnel-HandsOn sum256 x (bound_to name ws r) h w v =
    elim (Bool-cases ((h.session_at r).agent_name == name)) [
      | inl e ↦ rw (e, advance_tunnel) (after_forwarding-HandsOn name ws r h)
      | inr e ↦ rw (e, advance_tunnel) (λ sid u. inr (u, refl))
    ]
advance_tunnel-HandsOn sum256 x (entry_found name key ws a) h w v = λ sid u.
    elim (insert_pending-Waits (entry_session key name ws x.now h) h sid w u) [
      | inl (same, client) ↦ absurd (ground (arith, client))
      | inr before ↦ inr (before, refl)
    ]
advance_tunnel-HandsOn sum256 x (entry_pending key ws r a) h w v =
    after_entry_open-HandsOn key ws r a (h.agent_at a).control x.written h
advance_tunnel-HandsOn sum256 x (entry_unsent key ws) h w v =
    λ sid u. inr ((cleanup_pending-Waits key pending_closed h sid w u).1, refl)
advance_tunnel-HandsOn sum256 x (entry_sent key ws r) h w v = λ sid u.
    elim (mark_open_sent-Waits key r h sid w v.1 u) [
      | inl same ↦ inl (ground (arith, same))
      | inr before ↦ inr (before, refl)
    ]
