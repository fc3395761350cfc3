-- ===== src/Hub/Threads/Online/KeepsTunnel.antt =====
-- Nor does the goroutine of a tunnel request.
use sshole.Base.{
  ◌≡◌, refl, Bool, true, false, Option, none, some, Str, str_eq, nat_eq, ◌==◌, Option-cases,
  Bool-cases, inl, inr,
}
use sshole.Base.Dict.{lookup}
use sshole.Hub.State.{Ref, Conn, Hub, pending_closed}
use sshole.Hub.AgentWs.{Request, stop, continue}
use sshole.Hub.AgentWs
use sshole.Hub.Sessions.{send_open, mark_open_sent, bind_tunnel, BindResult, bind_error, bound}
use sshole.Hub.Sessions.Laws.{bind_tunnel_iff}
use sshole.Hub.Forward.{start_forwarding}
use sshole.Hub.TunnelWs.{bind_entry_session}
use sshole.Hub.Threads.{
  TunnelPoint, tunnel_start, tunnel_checked, tunnel_accepted, tunnel_named, join, bound_to,
  entry_found, entry_pending, entry_unsent, entry_sent, Input,
}
use sshole.Hub.Threads.Tunnel.{
  advance_tunnel, after_bind, after_forwarding, after_entry_open, after_check, after_name,
}
use sshole.Hub.Threads.Checks.{
  OnlyTrace, After, OnlyTrace-After, check_tunnel_request-OnlyTrace, session_of_request-OnlyTrace,
}
use sshole.Hub.Threads.Online.Keeps.{SameAgents, Keeps, cleanup_pending-Keeps}

abbrev KeepsStep {ℓ} : {A : Type ℓ} → Hub → AgentWs.Step A → Type 0
KeepsStep h s = After (SameAgents h) s

OnlyTrace-KeepsStep {ℓ} :
    {A : Type ℓ} (h : Hub) (s : AgentWs.Step A) → OnlyTrace h s → KeepsStep h s
OnlyTrace-KeepsStep h s = OnlyTrace-After (SameAgents h) h s (λ ts. (refl, refl))

after_check-Keeps :
    (r : Request) (h : Hub) (s : AgentWs.Step Ref) → KeepsStep h s → Keeps h (after_check r s)
after_check-Keeps r h (stop h') same = same
after_check-Keeps r h (continue a h') same = same

after_name-Keeps :
    (name : Str) (ws : Conn) (a : Ref) (h : Hub) (s : AgentWs.Step Str)
    → KeepsStep h s
    → Keeps h (after_name name ws a s)
after_name-Keeps name ws a h (stop h') same = same
after_name-Keeps name ws a h (continue sid h') same = same

after_bind-Keeps :
    (name sid : Str) (ws : Conn) (h : Hub) (b : BindResult)
    → bind_tunnel sid ws h ≡ b
    → Keeps h (after_bind name ws b h)
after_bind-Keeps name sid ws h (bind_error code k) e = (refl, refl)
after_bind-Keeps name sid ws h (bound r h₁) e =
    let (found, sent, fresh, same) = (bind_tunnel_iff sid ws r h h₁).0 e in rw (same) (refl, refl)

after_forwarding-Keeps : (r : Ref) (h : Hub) → Keeps h (after_forwarding (start_forwarding r h))
unfolding start_forwarding
after_forwarding-Keeps r h = elim (Option-cases (h.session_at r).tunnel) [
  | inl f ↦ rw (f, start_forwarding) tt
  | inr (ws, f) ↦ elim (Option-cases (h.session_at r).ssh_conn) [
    | inl e ↦ rw (f, e, start_forwarding) (refl, refl)
    | inr (c, e) ↦ rw (f, e, start_forwarding) (refl, refl)
  ]
]

after_entry_open-Keeps :
    (sid : Str) (ws : Conn) (r : Ref) (c : Option Conn) (written : Bool) (h : Hub)
    → Keeps h (after_entry_open sid ws r (send_open c sid written h))
unfolding send_open
after_entry_open-Keeps sid ws r none written h = tt
after_entry_open-Keeps sid ws r (some c) true h = (refl, refl)
after_entry_open-Keeps sid ws r (some c) false h = (refl, refl)

pub advance_tunnel-Keeps :
    (sum256 : Str → Str) (x : Input) (p : TunnelPoint) (h : Hub)
    → Keeps h (advance_tunnel sum256 x p h)
unfolding advance_tunnel bind_entry_session mark_open_sent
advance_tunnel-Keeps sum256 x (tunnel_start r) h =
    after_check-Keeps r h _ (OnlyTrace-KeepsStep h _ (check_tunnel_request-OnlyTrace r h))
advance_tunnel-Keeps sum256 x (tunnel_checked r a) h = elim (Option-cases x.accepted) [
  | inl e ↦ rw (e, advance_tunnel) (refl, refl)
  | inr (ws, e) ↦ rw (e, advance_tunnel) (refl, refl)
]
advance_tunnel-Keeps sum256 x (tunnel_accepted r a ws) h =
    after_name-Keeps r.x_agent ws a h _
      (OnlyTrace-KeepsStep h _ (session_of_request-OnlyTrace sum256 r ws x.read h))
advance_tunnel-Keeps sum256 x (tunnel_named name sid ws a) h =
    elim (Option-cases (lookup sid h.pending)) [
      | inl e ↦ rw (e, advance_tunnel) (refl, refl)
      | inr (r, e) ↦ rw (e, advance_tunnel) (refl, refl)
    ]
advance_tunnel-Keeps sum256 x (join name sid ws r) h =
    elim (Option-cases (h.session_at r).entry_ws) [
      | inl e ↦ rw (e, advance_tunnel) (after_bind-Keeps name sid ws h _ refl)
      | inr (entry, e) ↦ rw (e, advance_tunnel) (refl, refl)
    ]
advance_tunnel-Keeps sum256 x (bound_to name ws r) h =
    elim (Bool-cases ((h.session_at r).agent_name == name)) [
      | inl e ↦ rw (e, advance_tunnel) (after_forwarding-Keeps r h)
      | inr e ↦ rw (e, advance_tunnel) (refl, refl)
    ]
advance_tunnel-Keeps sum256 x (entry_found name sid ws a) h = (refl, refl)
advance_tunnel-Keeps sum256 x (entry_pending sid ws r a) h =
    after_entry_open-Keeps sid ws r (h.agent_at a).control x.written h
advance_tunnel-Keeps sum256 x (entry_unsent sid ws) h = cleanup_pending-Keeps sid pending_closed h
advance_tunnel-Keeps sum256 x (entry_sent sid ws r) h = (refl, refl)
