-- ===== src/Hub/Threads/Online/Keeps.antt =====
-- The goroutines other than an agent's handler change neither the map of agents nor an agent.

use sshole.Base.{
  ◌≡◌, refl, Bool, true, false, ◌||◌, Option, none, some, [], Str, arith, str_eq, nat_eq, ◌==◌,
  Option-cases, Bool-cases, inl, inr,
}
use sshole.Base.Text.{trim_space}
use sshole.Base.Dict.{lookup}
use sshole.Hub.State.{
  Ref, Conn, Hub, PendingState, pending_closed, pending_timeout, Outcome, returned, panicked, emit,
  close_conn,
}
use sshole.Hub.Sessions.{
  ssh_lookup, send_open, timeout_check, cleanup_pending, mark_open_sent, is_bound,
}
use sshole.Hub.Forward.{
  Forwarding, start_websocket_forwarding, cleanup, WaitEvent, timer_fired, tick,
}
use sshole.Hub.Start.{AcceptEvent, accept_error, accepted}
use sshole.Hub.Threads.{
  Thread, SshPoint, ssh_start, ssh_found, ssh_pending, ssh_unsent, ssh_sent, WatchPoint, watching,
  expired, WaitPoint, waiting, wait_expired, KeyPoint, key_start, key_found, Input, Moved,
}
use sshole.Hub.Threads.Ssh.{advance_ssh, advance_watch, after_open}
use sshole.Hub.Threads.Tunnel.{advance_wait, wait_tick, advance_copies, after_cleanup}
use sshole.Hub.Threads.Agent.{advance_serves, advance_key, send_key}
use sshole.Hub.Threads.System.{as_threads}
use sshole.Hub.Threads.Online.{attends, Attends}

abbrev pub SameAgents : Hub → Hub → Type 0
SameAgents h h' = (h'.agents ≡ h.agents) × (h'.agent_at ≡ h.agent_at)

abbrev pub Keeps : {P : Type 0} → Hub → Outcome (Moved P) → Type 0
Keeps h panicked = Unit {0}
Keeps h (returned m) = SameAgents h m.hub

pub Attends-Keeps :
    {P : Type 0} (of_point : P → Thread) (p : P) (h : Hub) (o : Outcome (Moved P))
    → ((name : Str) (ws : Conn) → attends name ws (of_point p) ≡ false)
    → Keeps h o
    → Attends h (of_point p) (as_threads of_point o)
Attends-Keeps of_point p h panicked other same = tt
Attends-Keeps of_point p h (returned m) other (agents, objects) =
    λ name ws e. inr (ground (arith, e, agents, objects), other name ws)

pub cleanup_pending-Keeps :
    (sid : Str) (s : PendingState) (h : Hub) → SameAgents h (cleanup_pending sid s h)
unfolding cleanup_pending
cleanup_pending-Keeps sid s h = elim (Option-cases (lookup sid h.pending)) [
  | inl e ↦ rw (e, cleanup_pending) (refl, refl)
  | inr (r, e) ↦ (ground (arith, e), ground (arith, e))
]

after_open-Keeps :
    (sid : Str) (r : Ref) (c : Option Conn) (written : Bool) (h : Hub)
    → Keeps h (after_open sid r (send_open c sid written h))
unfolding send_open
after_open-Keeps sid r none written h = tt
after_open-Keeps sid r (some c) true h = (refl, refl)
after_open-Keeps sid r (some c) false h = (refl, refl)

pub advance_ssh-Keeps : (x : Input) (p : SshPoint) (h : Hub) → Keeps h (advance_ssh x p h)
unfolding advance_ssh mark_open_sent
advance_ssh-Keeps x (ssh_start name conn) h = elim (Option-cases (ssh_lookup name h)) [
  | inl e ↦ rw (e, advance_ssh) (refl, refl)
  | inr (a, e) ↦ rw (e, advance_ssh) (refl, refl)
]
advance_ssh-Keeps x (ssh_found name conn a) h = (refl, refl)
advance_ssh-Keeps x (ssh_pending sid r a) h =
    after_open-Keeps sid r (h.agent_at a).control x.written h
advance_ssh-Keeps x (ssh_unsent sid) h = cleanup_pending-Keeps sid pending_closed h
advance_ssh-Keeps x (ssh_sent sid r) h = (refl, refl)

pub advance_watch-Keeps : (x : Input) (p : WatchPoint) (h : Hub) → Keeps h (advance_watch x p h)
unfolding advance_watch
advance_watch-Keeps x (watching sid) h = elim (Bool-cases (timeout_check sid h)) [
  | inl e ↦ rw (e, advance_watch) (refl, refl)
  | inr e ↦ rw (e, advance_watch) (refl, refl)
]
advance_watch-Keeps x (expired sid) h = cleanup_pending-Keeps sid pending_timeout h

wait_tick-Keeps : (sid : Str) (entry : Conn) (r : Ref) (h : Hub) → Keeps h (wait_tick sid entry r h)
unfolding wait_tick start_websocket_forwarding
wait_tick-Keeps sid entry r h = elim (Option-cases (h.session_at r).tunnel) [
  | inl e ↦ rw (e, wait_tick) (refl, refl)
  | inr (ws, e) ↦ elim (Bool-cases (is_bound (h.session_at r).state)) [
    | inl f ↦ rw (e, f, wait_tick) (refl, refl)
    | inr f ↦ rw (e, f, wait_tick) (refl, refl)
  ]
]

pub advance_wait-Keeps : (x : Input) (p : WaitPoint) (h : Hub) → Keeps h (advance_wait x p h)
unfolding advance_wait
advance_wait-Keeps x (waiting sid entry) h = go x.event refl
  where
    go : (e : WaitEvent) → x.event ≡ e → Keeps h (advance_wait x (waiting sid entry) h)
    go timer_fired e = rw (e, advance_wait) (refl, refl)
    go tick e = elim (Option-cases (lookup sid h.pending)) [
      | inl f ↦ rw (e, f, advance_wait) (refl, refl)
      | inr (r, f) ↦ rw (e, f, advance_wait) (wait_tick-Keeps sid entry r h)
    ]
advance_wait-Keeps x (wait_expired sid) h = cleanup_pending-Keeps sid pending_timeout h

cleanup-Keeps : (f : Forwarding) (h : Hub) → SameAgents h (cleanup f h).1
unfolding cleanup
cleanup-Keeps f h = elim (Bool-cases f.closed) [
  | inl e ↦ rw (e, cleanup) (refl, refl)
  | inr e ↦ elim (Option-cases f.session) [
    | inl g ↦ rw (e, g, cleanup) (refl, refl)
    | inr (sid, g) ↦
        rw (e, g, cleanup)
          (cleanup_pending-Keeps sid pending_closed
            (emit (close_conn f.right) (emit (close_conn f.left) h)))
  ]
]

after_cleanup-Keeps :
    (closed : Bool) (o : Forwarding × Hub) (h : Hub)
    → SameAgents h o.1
    → Keeps h (after_cleanup closed o)
after_cleanup-Keeps true o h same = same
after_cleanup-Keeps false o h same = same

pub advance_copies-Keeps : (f : Option Forwarding) (h : Hub) → Keeps h (advance_copies f h)
unfolding advance_copies
advance_copies-Keeps none h = tt
advance_copies-Keeps (some f) h = after_cleanup-Keeps f.closed (cleanup f h) h (cleanup-Keeps f h)

pub advance_serves-Keeps : (x : Input) (name : Str) (h : Hub) → Keeps h (advance_serves x name h)
unfolding advance_serves
advance_serves-Keeps x name h = go x.accept refl
  where
    go : (a : AcceptEvent) → x.accept ≡ a → Keeps h (advance_serves x name h)
    go (accept_error true) e = rw (e, advance_serves) (refl, refl)
    go (accept_error false) e = rw (e, advance_serves) (refl, refl)
    go (accepted conn) e = rw (e, advance_serves) (refl, refl)

send_key-Keeps :
    (k : Str) (c : Option Conn) (written : Bool) (h : Hub) → Keeps h (send_key k c written h)
send_key-Keeps k none written h = tt
send_key-Keeps k (some c) true h = (refl, refl)
send_key-Keeps k (some c) false h = (refl, refl)

pub advance_key-Keeps : (x : Input) (p : KeyPoint) (h : Hub) → Keeps h (advance_key x p h)
unfolding advance_key
advance_key-Keeps x (key_start req) h =
    elim (Bool-cases (req.agent_name == [] || trim_space req.public_key == [])) [
      | inl e ↦ rw (e, advance_key) (refl, refl)
      | inr e ↦ elim (Option-cases (ssh_lookup req.agent_name h)) [
        | inl f ↦ rw (e, f, advance_key) (refl, refl)
        | inr (a, f) ↦ elim (Bool-cases x.marshals) [
          | inl g ↦ rw (e, f, g, advance_key) (refl, refl)
          | inr g ↦ rw (e, f, g, advance_key) (refl, refl)
        ]
      ]
    ]
advance_key-Keeps x (key_found k a) h = send_key-Keeps k (h.agent_at a).control x.written h
