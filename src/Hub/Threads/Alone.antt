-- ===== src/Hub/Threads/Alone.antt =====
-- A goroutine of the hub with nothing in between its stretches: the whole handlers of Sessions and
-- TunnelWs.
use sshole.Base.{
  ℕ, zero, suc, ◌≡◌, refl, Option, none, some, Str, str_eq, ◌==◌, Option-cases, Bool-cases, inl,
  inr,
}
use sshole.Base.Dict.{lookup}
use sshole.Hub.State.{Ref, Conn, Hub, Outcome, returned, panicked}
use sshole.Hub.AgentWs.{Request}
use sshole.Hub.Sessions.{
  ssh_lookup, on_ssh_conn, ssh_after_send, send_open, timeout_check, watch_pending_timeout,
  BindResult, bind_error, bound,
}
use sshole.Hub.Forward.{start_forwarding}
use sshole.Hub.Steps.Handlers.{Step-cases}
use sshole.Hub.TunnelWs
use sshole.Hub.TunnelWs.{
  TunnelRun, check_tunnel_request, session_of_request, join_session, begin_session,
  entry_after_send, route_tunnel, handle_tunnel_ws,
}
use sshole.Hub.Threads.{Input, Moved, ssh_start, watching, tunnel_start, tunnel_named, join}
use sshole.Hub.Threads.Ssh.{advance_ssh, advance_watch, after_open}
use sshole.Hub.Threads.Tunnel.{advance_tunnel, after_bind, after_forwarding, after_entry_open}

-- What follows a stretch: the end of the goroutine, or `later` from the point where it stands.
abbrev pub followed :
    {P : Type 0} → (P → Hub → Option (Outcome Hub)) → Outcome (Moved P) → Option (Outcome Hub)
followed later panicked = some panicked
followed {P} later (returned m) = at_point m.point
  where
    at_point : Option P → Option (Outcome Hub)
    at_point none = some (returned m.hub)
    at_point (some p) = later p m.hub

-- At most so many stretches; `none` where the goroutine has not ended by then.
unfoldable pub alone :
    {P : Type 0} → (P → Hub → Outcome (Moved P)) → ℕ → P → Hub → Option (Outcome Hub)
alone advance zero p h = none
alone advance (suc n) p h = followed (alone advance n) (advance p h)

after_open-alone :
    (x : Input) (sid : Str) (r : Ref) (c : Option Conn) (h : Hub)
    → followed (alone (advance_ssh x) 2) (after_open sid r (send_open c sid x.written h))
      ≡ some (ssh_after_send r sid (send_open c sid x.written h))
unfolding send_open alone advance_ssh ssh_after_send
after_open-alone x sid r none h = refl
after_open-alone x sid r (some c) h = elim (Bool-cases x.written) [
  | inl e ↦ rw e refl
  | inr e ↦ rw e refl
]

-- Run alone, the goroutine of an SSH connection ends within five stretches, and does what onSSHConn does.
pub on_ssh_conn-alone :
    (x : Input) (agent : Str) (conn : Conn) (h : Hub)
    → alone (advance_ssh x) 5 (ssh_start agent conn) h
      ≡ some (on_ssh_conn agent conn x.new_sid x.now x.written h)
unfolding alone advance_ssh on_ssh_conn
on_ssh_conn-alone x agent conn h = elim (Option-cases (ssh_lookup agent h)) [
  | inl e ↦ rw (e, alone, advance_ssh, on_ssh_conn) refl
  | inr (a, e) ↦ rw (e, alone, advance_ssh, on_ssh_conn) (after_open-alone x _ _ _ _)
]

-- Likewise within two stretches for watchPendingTimeout, once its timer has fired.
pub watch_pending_timeout-alone :
    (x : Input) (sid : Str) (h : Hub)
    → alone (advance_watch x) 2 (watching sid) h ≡ some (returned (watch_pending_timeout sid h))
unfolding alone advance_watch watch_pending_timeout
watch_pending_timeout-alone x sid h = elim (Bool-cases (timeout_check sid h)) [
  | inl e ↦ rw (e, alone, advance_watch, watch_pending_timeout) refl
  | inr e ↦ rw (e, alone, advance_watch, watch_pending_timeout) refl
]

module _ (sum256 : Str → Str) (x : Input) where
  after_forwarding-alone :
      (n : ℕ) (r : Ref) (h : Hub)
      → followed (alone (advance_tunnel sum256 x) n) (after_forwarding (start_forwarding r h))
        ≡ some (TunnelWs.forwarded (start_forwarding r h))
  unfolding start_forwarding
  after_forwarding-alone n r h = elim (Option-cases (h.session_at r).tunnel) [
    | inl f ↦ rw (f, start_forwarding) refl
    | inr (ws, f) ↦ elim (Option-cases (h.session_at r).ssh_conn) [
      | inl e ↦ rw (f, e, start_forwarding) refl
      | inr (c, e) ↦ rw (f, e, start_forwarding) refl
    ]
  ]

  after_bind-alone :
      (n : ℕ) (name : Str) (ws : Conn) (b : BindResult) (h : Hub)
      → followed (alone (advance_tunnel sum256 x) (suc n)) (after_bind name ws b h)
        ≡ some (TunnelWs.finish_bind name ws b h)
  unfolding alone advance_tunnel
  after_bind-alone n name ws (bind_error code sid) h = refl
  after_bind-alone n name ws (bound r h₁) h =
      elim (Bool-cases ((h₁.session_at r).agent_name == name)) [
        | inl e ↦ rw (e, alone, advance_tunnel) (after_forwarding-alone n r h₁)
        | inr e ↦ rw (e, alone, advance_tunnel) refl
      ]

  join_session-alone :
      (n : ℕ) (name sid : Str) (ws : Conn) (r : Ref) (h : Hub)
      → alone (advance_tunnel sum256 x) (suc (suc n)) (join name sid ws r) h
        ≡ some (join_session name sid ws r h)
  unfolding alone advance_tunnel join_session
  join_session-alone n name sid ws r h = elim (Option-cases (h.session_at r).entry_ws) [
    | inl e ↦ rw (e, alone, advance_tunnel, join_session) (after_bind-alone n name ws _ h)
    | inr (entry, e) ↦ rw (e, alone, advance_tunnel, join_session) refl
  ]

  after_entry_open-alone :
      (sid : Str) (ws : Conn) (r : Ref) (c : Option Conn) (h : Hub)
      → followed
          (alone (advance_tunnel sum256 x) 1)
          (after_entry_open sid ws r (send_open c sid x.written h))
        ≡ some (entry_after_send r sid ws (send_open c sid x.written h))
  unfolding send_open alone advance_tunnel entry_after_send
  after_entry_open-alone sid ws r none h = refl
  after_entry_open-alone sid ws r (some c) h = elim (Bool-cases x.written) [
    | inl e ↦ rw e refl
    | inr e ↦ rw e refl
  ]

  route_tunnel-alone :
      (name sid : Str) (ws : Conn) (a : Ref) (h : Hub)
      → alone (advance_tunnel sum256 x) 4 (tunnel_named name sid ws a) h
        ≡ some (route_tunnel name sid ws a x.now x.written h)
  unfolding alone advance_tunnel route_tunnel begin_session
  route_tunnel-alone name sid ws a h = elim (Option-cases (lookup sid h.pending)) [
    | inl e ↦ rw (e, alone, advance_tunnel, route_tunnel) (after_entry_open-alone sid ws _ _ _)
    | inr (r, e) ↦
        rw (e, alone, advance_tunnel, route_tunnel) (join_session-alone 1 name sid ws r h)
  ]

  abbrev tunnel_run : TunnelRun
  tunnel_run = record {
    accepted = x.accepted;
    first_read = x.read;
    now = x.now;
    written = x.written;
  }

  -- Run with nothing in between its stretches, the goroutine of a tunnel request ends within seven of
  -- them, and does what handleTunnelWS does as one function.
  pub handle_tunnel_ws-alone :
      (request : Request) (h : Hub)
      → alone (advance_tunnel sum256 x) 7 (tunnel_start request) h
        ≡ some (handle_tunnel_ws sum256 request tunnel_run h)
  unfolding alone advance_tunnel handle_tunnel_ws
  handle_tunnel_ws-alone request h = elim (Step-cases (check_tunnel_request request h)) [
    | inl (h₁, e) ↦ rw (e, alone, advance_tunnel, handle_tunnel_ws) refl
    | inr (a, h₁, e) ↦ elim (Option-cases x.accepted) [
      | inl f ↦ rw (e, alone, advance_tunnel, handle_tunnel_ws, f) refl
      | inr (ws, f) ↦ elim (Step-cases (session_of_request sum256 request ws x.read h₁)) [
        | inl (h₂, g) ↦ rw (e, alone, advance_tunnel, handle_tunnel_ws, f, g) refl
        | inr (sid, h₂, g) ↦
            rw (e, alone, advance_tunnel, handle_tunnel_ws, f, g)
              (route_tunnel-alone request.x_agent sid ws a h₂)
      ]
    ]
  ]
