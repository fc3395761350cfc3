-- ===== src/Hub/Threads/Panics.antt =====
-- Which stretches of the hub's goroutines dereference a nil pointer, and those of an SSH client's
-- connection, of a tunnel and of a forwarding.
use sshole.Base.{
  ◌≡◌, refl, ◌≢◌, Bool, true, false, Option, none, some, Str, str_eq, Option-cases, Bool-cases,
  ◌==◌, is_none, inl, inr,
}
use sshole.Base.Dict.{lookup}
use sshole.Hub.State.{Ref, Conn, Hub, Outcome, returned, panicked}
use sshole.Hub.AgentWs.{
  Request, stop, continue, check_agent_request, register_agent, serve_and_save, attach_control,
  detach_control,
}
use sshole.Hub.AgentWs
use sshole.Hub.Sessions.{
  send_open, bind_tunnel, BindResult, bind_error, bound, is_bound, timeout_check, ssh_lookup,
}
use sshole.Hub.Forward.{Forwarding, start_forwarding, cleanup, WaitEvent, timer_fired, tick}
use sshole.Hub.TunnelWs.{check_tunnel_request, session_of_request}
use sshole.Hub.Threads.{
  copies, Thread, ssh, tunnel, key, Input, Moved, SshPoint, ssh_start, ssh_found, ssh_pending,
  ssh_unsent, ssh_sent, WatchPoint, watching, expired, TunnelPoint, tunnel_start, tunnel_checked,
  tunnel_accepted, tunnel_named, join, bound_to, entry_found, entry_pending, entry_unsent,
  entry_sent, WaitPoint, waiting, wait_expired, key_found,
}
use sshole.Hub.Threads.Ssh.{advance_ssh, advance_watch, after_open}
use sshole.Hub.Threads.Tunnel.{
  advance_tunnel, advance_wait, wait_tick, advance_copies, after_bind, after_forwarding,
  after_entry_open, after_check, after_name, after_cleanup,
}
use sshole.Hub.Threads.System.{as_threads}
use sshole.Hub.Threads.Valid.{IsValidTunnel}

abbrev pub panics : {A : Type 0} → Outcome A → Bool
panics panicked = true
panics (returned a) = false

-- The control websocket of the agent at `a` is nil.
abbrev pub offline : Ref → Hub → Bool
offline a h = is_none (h.agent_at a).control

-- The agent went offline after its state was tested, or the copy loops have a nil connection.
abbrev pub crashes : Thread → Hub → Bool
crashes (ssh (ssh_pending sid r a)) h = offline a h
crashes (tunnel (entry_pending sid ws r a)) h = offline a h
crashes (key (key_found k a)) h = offline a h
crashes (copies none) h = true
crashes _ h = false

pub panics-as_threads :
    {P : Type 0} (of_point : P → Thread) (o : Outcome (Moved P))
    → panics (as_threads of_point o) ≡ panics o
panics-as_threads of_point panicked = refl
panics-as_threads of_point (returned m) = refl

panics-after_open :
    (sid : Str) (r : Ref) (c : Option Conn) (written : Bool) (h : Hub)
    → panics (after_open sid r (send_open c sid written h)) ≡ is_none c
unfolding send_open
panics-after_open sid r none written h = refl
panics-after_open sid r (some c) true h = refl
panics-after_open sid r (some c) false h = refl

panics-after_entry_open :
    (sid : Str) (ws : Conn) (r : Ref) (c : Option Conn) (written : Bool) (h : Hub)
    → panics (after_entry_open sid ws r (send_open c sid written h)) ≡ is_none c
unfolding send_open
panics-after_entry_open sid ws r none written h = refl
panics-after_entry_open sid ws r (some c) true h = refl
panics-after_entry_open sid ws r (some c) false h = refl

pub panics-advance_ssh :
    (x : Input) (p : SshPoint) (h : Hub) → panics (advance_ssh x p h) ≡ crashes (ssh p) h
unfolding advance_ssh
panics-advance_ssh x (ssh_start name conn) h = elim (Option-cases (ssh_lookup name h)) [
  | inl e ↦ rw (e, advance_ssh) refl
  | inr (a, e) ↦ rw (e, advance_ssh) refl
]
panics-advance_ssh x (ssh_found name conn a) h = refl
panics-advance_ssh x (ssh_pending sid r a) h =
    panics-after_open sid r (h.agent_at a).control x.written h
panics-advance_ssh x (ssh_unsent sid) h = refl
panics-advance_ssh x (ssh_sent sid r) h = refl

pub panics-advance_watch :
    (x : Input) (p : WatchPoint) (h : Hub) → panics (advance_watch x p h) ≡ false
unfolding advance_watch
panics-advance_watch x (watching sid) h = elim (Bool-cases (timeout_check sid h)) [
  | inl e ↦ rw (e, advance_watch) refl
  | inr e ↦ rw (e, advance_watch) refl
]
panics-advance_watch x (expired sid) h = refl

panics-after_check : (r : Request) (s : AgentWs.Step Ref) → panics (after_check r s) ≡ false
panics-after_check r (stop h) = refl
panics-after_check r (continue a h) = refl

panics-after_name :
    (name : Str) (ws : Conn) (a : Ref) (s : AgentWs.Step Str)
    → panics (after_name name ws a s) ≡ false
panics-after_name name ws a (stop h) = refl
panics-after_name name ws a (continue sid h) = refl

panics-after_bind :
    (name : Str) (ws : Conn) (b : BindResult) (h : Hub) → panics (after_bind name ws b h) ≡ false
panics-after_bind name ws (bind_error code sid) h = refl
panics-after_bind name ws (bound r h₁) h = refl

-- A session that is bound has a tunnel.
panics-after_forwarding :
    (r : Ref) (h : Hub)
    → (h.session_at r).tunnel ≢ none
    → panics (after_forwarding (start_forwarding r h)) ≡ false
unfolding start_forwarding
panics-after_forwarding r h has_tunnel = elim (Option-cases (h.session_at r).tunnel) [
  | inl f ↦ absurd (has_tunnel f)
  | inr (ws, f) ↦ elim (Option-cases (h.session_at r).ssh_conn) [
    | inl e ↦ rw (f, e, start_forwarding) refl
    | inr (c, e) ↦ rw (f, e, start_forwarding) refl
  ]
]

pub panics-advance_tunnel :
    (sum256 : Str → Str) (x : Input) (p : TunnelPoint) (h : Hub)
    → IsValidTunnel h p
    → panics (advance_tunnel sum256 x p h) ≡ crashes (tunnel p) h
unfolding advance_tunnel
panics-advance_tunnel sum256 x (tunnel_start request) h v =
    panics-after_check request (check_tunnel_request request h)
panics-advance_tunnel sum256 x (tunnel_checked request a) h v = elim (Option-cases x.accepted) [
  | inl e ↦ rw (e, advance_tunnel) refl
  | inr (ws, e) ↦ rw (e, advance_tunnel) refl
]
panics-advance_tunnel sum256 x (tunnel_accepted request a ws) h v =
    panics-after_name request.x_agent ws a (session_of_request sum256 request ws x.read h)
panics-advance_tunnel sum256 x (tunnel_named name sid ws a) h v =
    elim (Option-cases (lookup sid h.pending)) [
      | inl e ↦ rw (e, advance_tunnel) refl
      | inr (r, e) ↦ rw (e, advance_tunnel) refl
    ]
panics-advance_tunnel sum256 x (join name sid ws r) h v =
    elim (Option-cases (h.session_at r).entry_ws) [
      | inl e ↦ rw (e, advance_tunnel) (panics-after_bind name ws (bind_tunnel sid ws h) h)
      | inr (entry, e) ↦ rw (e, advance_tunnel) refl
    ]
panics-advance_tunnel sum256 x (bound_to name ws r) h v =
    elim (Bool-cases ((h.session_at r).agent_name == name)) [
      | inl e ↦ rw (e, advance_tunnel) (panics-after_forwarding r h v.1)
      | inr e ↦ rw (e, advance_tunnel) refl
    ]
panics-advance_tunnel sum256 x (entry_found name sid ws a) h v = refl
panics-advance_tunnel sum256 x (entry_pending sid ws r a) h v =
    panics-after_entry_open sid ws r (h.agent_at a).control x.written h
panics-advance_tunnel sum256 x (entry_unsent sid ws) h v = refl
panics-advance_tunnel sum256 x (entry_sent sid ws r) h v = refl

panics-wait_tick :
    (sid : Str) (entry : Conn) (r : Ref) (h : Hub) → panics (wait_tick sid entry r h) ≡ false
unfolding wait_tick
panics-wait_tick sid entry r h = elim (Option-cases (h.session_at r).tunnel) [
  | inl e ↦ rw (e, wait_tick) refl
  | inr (ws, e) ↦ elim (Bool-cases (is_bound (h.session_at r).state)) [
    | inl f ↦ rw (e, f, wait_tick) refl
    | inr f ↦ rw (e, f, wait_tick) refl
  ]
]

pub panics-advance_wait :
    (x : Input) (p : WaitPoint) (h : Hub) → panics (advance_wait x p h) ≡ false
unfolding advance_wait
panics-advance_wait x (waiting sid entry) h = go x.event refl
  where
    go : (e : WaitEvent) → x.event ≡ e → panics (advance_wait x (waiting sid entry) h) ≡ false
    go timer_fired e = rw (e, advance_wait) refl
    go tick e = elim (Option-cases (lookup sid h.pending)) [
      | inl f ↦ rw (e, f, advance_wait) refl
      | inr (r, f) ↦ rw (e, f, advance_wait) (panics-wait_tick sid entry r h)
    ]
panics-advance_wait x (wait_expired sid) h = refl

panics-after_cleanup :
    (closed : Bool) (p : Forwarding × Hub) → panics (after_cleanup closed p) ≡ false
panics-after_cleanup true (f, h) = refl
panics-after_cleanup false (f, h) = refl

pub panics-advance_copies :
    (f : Option Forwarding) (h : Hub) → panics (advance_copies f h) ≡ crashes (copies f) h
unfolding advance_copies
panics-advance_copies none h = refl
panics-advance_copies (some f) h = panics-after_cleanup f.closed (cleanup f h)
