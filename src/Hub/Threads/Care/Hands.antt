-- ===== src/Hub/Threads/Care/Hands.antt =====
-- The stretches of onSSHConn and watchPendingTimeout hand each session that waits on.
use sshole.Base.{
  ◌≡◌, refl, ◌⊎◌, inl, inr, Bool, true, false, ◌||◌, Option, none, some, List, Str, arith, str_eq,
  ◌==◌, Option-cases, Bool-cases,
}
use sshole.Hub.State.{Ref, Conn, Hub, Outcome, returned, panicked, pending_closed, pending_timeout}
use sshole.Hub.Sessions.{ssh_lookup, ssh_session, send_open, timeout_check}
use sshole.Hub.Steps.Invariant.{IsWellFormed}
use sshole.Hub.Threads.{
  Thread, ssh, watch, SshPoint, ssh_start, ssh_found, ssh_pending, ssh_unsent, ssh_sent, WatchPoint,
  watching, expired, Input,
}
use sshole.Hub.Threads.Ssh.{advance_ssh, advance_watch, after_open}
use sshole.Hub.Threads.System.{as_threads}
use sshole.Hub.Threads.Valid.{IsValidSsh}
use sshole.Hub.Threads.Care.{
  lookup, client_waits, Waits, cares, any_cares, insert_pending-Waits, cleanup_pending-Waits,
  mark_open_sent-Waits,
}

-- Every session that waits after the stretch is in the hands of what the goroutine is replaced by, or
-- it waited before and was not in the hands of this goroutine.
abbrev pub HandsOn : Hub → Thread → Outcome (Hub × List Thread) → Type 0
HandsOn h t panicked = Unit {0}
HandsOn h t (returned (h', ts)) =
    (sid : Str) → Waits sid h' → (any_cares sid ts ≡ true) ⊎ (Waits sid h × (cares sid t ≡ false))

pub kept :
    (sid key : Str) (h : Hub)
    → Waits sid h
    → ((sid == key || false) ≡ true) ⊎ (Waits sid h × (sid == key ≡ false))
kept sid key h u = elim (Bool-cases (sid == key)) [
  | inl same ↦ inl (ground (arith, same))
  | inr other ↦ inr (u, other)
]

pub dropped :
    {A : Type 0} (sid key : Str) (h : Hub)
    → (sid == key ≡ false) × Waits sid h
    → A ⊎ (Waits sid h × (sid == key ≡ false))
dropped sid key h (other, u) = inr (u, other)

pub told :
    (sid key : Str) (h : Hub)
    → (sid == key ≡ true) ⊎ Waits sid h
    → ((sid == key || false) ≡ true) ⊎ (Waits sid h × (sid == key ≡ false))
told sid key h (inl same) = inl (ground (arith, same))
told sid key h (inr u) = kept sid key h u

pub inserted :
    (sid key : Str) (ws : Option Conn) (h : Hub)
    → ((sid == key ≡ true) × (ws ≡ none)) ⊎ Waits sid h
    → ((sid == key || false) ≡ true) ⊎ (Waits sid h × (false ≡ false))
inserted sid key ws h (inl (same, client)) = inl (ground (arith, same))
inserted sid key ws h (inr u) = inr (u, refl)

after_open-HandsOn :
    (sid : Str) (r a : Ref) (c : Option Conn) (written : Bool) (h : Hub)
    → HandsOn h
        (ssh (ssh_pending sid r a))
        (as_threads ssh (after_open sid r (send_open c sid written h)))
unfolding send_open client_waits
after_open-HandsOn key r a none written h = tt
after_open-HandsOn key r a (some c) true h = λ sid u. kept sid key h u
after_open-HandsOn key r a (some c) false h = λ sid u. kept sid key h u

pub advance_ssh-HandsOn :
    (x : Input) (p : SshPoint) (h : Hub)
    → IsWellFormed h
    → IsValidSsh h p
    → HandsOn h (ssh p) (as_threads ssh (advance_ssh x p h))
unfolding advance_ssh client_waits
advance_ssh-HandsOn x (ssh_start name conn) h w v = elim (Option-cases (ssh_lookup name h)) [
  | inl e ↦ rw (e, advance_ssh) (λ sid u. inr (u, refl))
  | inr (a, e) ↦ rw (e, advance_ssh) (λ sid u. inr (u, refl))
]
advance_ssh-HandsOn x (ssh_found name conn a) h w v = λ sid u.
    inserted sid x.new_sid none h
      (insert_pending-Waits (ssh_session x.new_sid name conn x.now h) h sid w u)
advance_ssh-HandsOn x (ssh_pending key r a) h w v =
    after_open-HandsOn key r a (h.agent_at a).control x.written h
advance_ssh-HandsOn x (ssh_unsent key) h w v =
    λ sid u. dropped sid key h (cleanup_pending-Waits key pending_closed h sid w u)
advance_ssh-HandsOn x (ssh_sent key r) h w v =
    λ sid u. told sid key h (mark_open_sent-Waits key r h sid w v.1 u)

-- A session that the watcher of its id leaves alone does not wait.
client_waits-timeout_check :
    (sid : Str) (h : Hub) → client_waits sid h ≡ true → timeout_check sid h ≡ true
unfolding client_waits timeout_check
client_waits-timeout_check sid h u = elim (Option-cases (lookup sid h.pending)) [
  | inl gone ↦ absurd (ground arith)
  | inr (r, found) ↦ ground arith
]

pub advance_watch-HandsOn :
    (x : Input) (p : WatchPoint) (h : Hub)
    → IsWellFormed h
    → HandsOn h (watch p) (as_threads watch (advance_watch x p h))
unfolding advance_watch
advance_watch-HandsOn x (watching key) h w = elim (Bool-cases (timeout_check key h)) [
  | inl e ↦ rw (e, advance_watch) (λ sid u. kept sid key h u)
  | inr e ↦
      rw (e, advance_watch)
        (λ sid u. elim (Bool-cases (sid == key)) [
          | inl same ↦ absurd (ground (arith, same, e, client_waits-timeout_check sid h u))
          | inr other ↦ inr (u, other)
        ])
]
advance_watch-HandsOn x (expired key) h w =
    λ sid u. dropped sid key h (cleanup_pending-Waits key pending_timeout h sid w u)
