-- ===== src/Hub/Threads/Care/OtherHands.antt =====
-- The other goroutines end no session's care.
use sshole.Base.{
  ◌≡◌, refl, inl, inr, Bool, true, false, ◌||◌, Option, none, some, [], Str, str_eq, nat_eq, ◌==◌,
  Option-cases, Bool-cases,
}
use sshole.Base.Text.{trim_space}
use sshole.Base.Dict.{lookup}
use sshole.Hub.State.{Ref, Conn, Hub, pending_closed, pending_timeout, emit, close_conn}
use sshole.Hub.Sessions.{is_bound, ssh_lookup}
use sshole.Hub.Forward.{
  Forwarding, start_websocket_forwarding, cleanup, WaitEvent, timer_fired, tick,
}
use sshole.Hub.Start.{AcceptEvent, accept_error, accepted}
use sshole.Hub.Steps.{effect, here, next}
use sshole.Hub.Steps.Invariant.{IsWellFormed, Reach-IsWellFormed}
use sshole.Hub.Threads.{
  wait, copies, key, serves, WaitPoint, waiting, wait_expired, KeyPoint, key_start, key_found,
  Input,
}
use sshole.Hub.Threads.Tunnel.{advance_wait, wait_tick, advance_copies, after_cleanup}
use sshole.Hub.Threads.Agent.{advance_serves, advance_key, send_key}
use sshole.Hub.Threads.System.{as_threads}
use sshole.Hub.Threads.Care.{client_waits, Waits, cleanup_pending-Waits}
use sshole.Hub.Threads.Care.Hands.{HandsOn}

wait_tick-HandsOn :
    (name : Str) (entry : Conn) (r : Ref) (h : Hub)
    → HandsOn h (wait (waiting name entry)) (as_threads wait (wait_tick name entry r h))
unfolding wait_tick start_websocket_forwarding client_waits
wait_tick-HandsOn name entry r h = elim (Option-cases (h.session_at r).tunnel) [
  | inl e ↦ rw (e, wait_tick) (λ sid u. inr (u, refl))
  | inr (ws, e) ↦ elim (Bool-cases (is_bound (h.session_at r).state)) [
    | inl f ↦ rw (e, f, wait_tick) (λ sid u. inr (u, refl))
    | inr f ↦ rw (e, f, wait_tick) (λ sid u. inr (u, refl))
  ]
]

pub advance_wait-HandsOn :
    (x : Input) (p : WaitPoint) (h : Hub)
    → IsWellFormed h
    → HandsOn h (wait p) (as_threads wait (advance_wait x p h))
unfolding advance_wait client_waits
advance_wait-HandsOn x (waiting name entry) h w = go x.event refl
  where
    go :
        (e : WaitEvent)
        → x.event ≡ e
        → HandsOn h
            (wait (waiting name entry))
            (as_threads wait (advance_wait x (waiting name entry) h))
    go timer_fired e = rw (e, advance_wait) (λ sid u. inr (u, refl))
    go tick e = elim (Option-cases (lookup name h.pending)) [
      | inl f ↦ rw (e, f, advance_wait) (λ sid u. inr (u, refl))
      | inr (r, f) ↦ rw (e, f, advance_wait) (wait_tick-HandsOn name entry r h)
    ]
advance_wait-HandsOn x (wait_expired name) h w =
    λ sid u. inr ((cleanup_pending-Waits name pending_timeout h sid w u).1, refl)

cleanup-Waits :
    (f : Forwarding) (h : Hub) (sid : Str)
    → IsWellFormed h
    → Waits sid (cleanup f h).1
    → Waits sid h
unfolding cleanup client_waits
cleanup-Waits f h sid w = elim (Bool-cases f.closed) [
  | inl e ↦ rw (e, cleanup) (λ u. u)
  | inr e ↦ elim (Option-cases f.session) [
    | inl g ↦ rw (e, g, cleanup) (λ u. u)
    | inr (name, g) ↦
        let closed : Hub = emit (close_conn f.right) (emit (close_conn f.left) h) in
        let w' : IsWellFormed closed =
          Reach-IsWellFormed (next (next here (effect _)) (effect _)) w in
        rw (e, g, cleanup) (λ u. (cleanup_pending-Waits name pending_closed closed sid w' u).1)
  ]
]

after_cleanup-HandsOn :
    (f : Forwarding) (h : Hub) (closed : Bool) (o : Forwarding × Hub)
    → ((sid : Str) → Waits sid o.1 → Waits sid h)
    → HandsOn h (copies (some f)) (as_threads copies (after_cleanup closed o))
after_cleanup-HandsOn f h true o keeps = λ sid u. inr (keeps sid u, refl)
after_cleanup-HandsOn f h false o keeps = λ sid u. inr (keeps sid u, refl)

pub advance_copies-HandsOn :
    (f : Option Forwarding) (h : Hub)
    → IsWellFormed h
    → HandsOn h (copies f) (as_threads copies (advance_copies f h))
unfolding advance_copies
advance_copies-HandsOn none h w = tt
advance_copies-HandsOn (some f) h w =
    after_cleanup-HandsOn f h f.closed (cleanup f h) (λ sid u. cleanup-Waits f h sid w u)

pub advance_serves-HandsOn :
    (x : Input) (name : Str) (h : Hub)
    → HandsOn h (serves name) (as_threads serves (advance_serves x name h))
unfolding advance_serves client_waits
advance_serves-HandsOn x name h = go x.accept refl
  where
    go :
        (a : AcceptEvent)
        → x.accept ≡ a
        → HandsOn h (serves name) (as_threads serves (advance_serves x name h))
    go (accept_error true) e = rw (e, advance_serves) (λ sid u. inr (u, refl))
    go (accept_error false) e = rw (e, advance_serves) (λ sid u. inr (u, refl))
    go (accepted conn) e = rw (e, advance_serves) (λ sid u. inr (u, refl))

send_key-HandsOn :
    (k : Str) (a : Ref) (c : Option Conn) (written : Bool) (h : Hub)
    → HandsOn h (key (key_found k a)) (as_threads key (send_key k c written h))
unfolding client_waits
send_key-HandsOn k a none written h = tt
send_key-HandsOn k a (some c) true h = λ sid u. inr (u, refl)
send_key-HandsOn k a (some c) false h = λ sid u. inr (u, refl)

pub advance_key-HandsOn :
    (x : Input) (p : KeyPoint) (h : Hub) → HandsOn h (key p) (as_threads key (advance_key x p h))
unfolding advance_key
advance_key-HandsOn x (key_start req) h =
    elim (Bool-cases (req.agent_name == [] || trim_space req.public_key == [])) [
      | inl e ↦ rw (e, advance_key) (λ sid u. inr (u, refl))
      | inr e ↦ elim (Option-cases (ssh_lookup req.agent_name h)) [
        | inl f ↦ rw (e, f, advance_key) (λ sid u. inr (u, refl))
        | inr (a, f) ↦ elim (Bool-cases x.marshals) [
          | inl g ↦ rw (e, f, g, advance_key) (λ sid u. inr (u, refl))
          | inr g ↦ rw (e, f, g, advance_key) (λ sid u. inr (u, refl))
        ]
      ]
    ]
advance_key-HandsOn x (key_found k a) h = send_key-HandsOn k a (h.agent_at a).control x.written h
