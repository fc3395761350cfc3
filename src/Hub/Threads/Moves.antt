-- ===== src/Hub/Threads/Moves.antt =====
-- Each stretch of a goroutine goes by steps, and keeps what its locals say.
use sshole.Base.{
  refl, inl, inr, Bool, true, false, Option, none, some, Str, arith, str_eq, nat_eq, All,
  Option-cases, Bool-cases,
}
use sshole.Hub.State.{Ref, Conn, Hub, Outcome, returned, panicked, pending_timeout, pending_closed}
use sshole.Hub.Sessions.{ssh_lookup, send_open, timeout_check}
use sshole.Hub.Steps.{effect, ssh_inserted, opened, cleaned, Reach, here, next}
use sshole.Hub.Threads.{
  SshPoint, ssh_start, ssh_found, ssh_unsent, ssh_pending, ssh_sent, WatchPoint, watching, expired,
  Input, Moved,
}
use sshole.Hub.Threads.Ssh.{advance_ssh, advance_watch, after_open}
use sshole.Hub.Threads.Valid.{IsValid, IsValidSsh, Named}

abbrev pub IsValidPoint {ℓ} : {P : Type ℓ} → (P → Type 0) → Option P → Type 0
IsValidPoint valid none = Unit {0}
IsValidPoint valid (some p) = valid p

-- Where the stretch does not dereference nil, the hub is reached, and the goroutine and those that it
-- started are valid there.
abbrev pub MovesBySteps : {P : Type 0} → (Hub → P → Type 0) → Hub → Outcome (Moved P) → Type 0
MovesBySteps valid h panicked = Unit {0}
MovesBySteps valid h (returned m) =
    Reach h m.hub × IsValidPoint (valid m.hub) m.point × All (IsValid m.hub) m.spawned

after_open-MovesBySteps :
    (sid : Str) (r : Ref) (c : Option Conn) (written : Bool) (h : Hub)
    → Named sid r h
    → MovesBySteps IsValidSsh h (after_open sid r (send_open c sid written h))
unfolding send_open
after_open-MovesBySteps sid r none written h l = tt
after_open-MovesBySteps sid r (some c) true h l = (next here (effect _), l, tt)
after_open-MovesBySteps sid r (some c) false h l = (here, tt, tt)

pub advance_ssh-MovesBySteps :
    (x : Input) (p : SshPoint) (h : Hub)
    → IsValidSsh h p
    → MovesBySteps IsValidSsh h (advance_ssh x p h)
unfolding advance_ssh
advance_ssh-MovesBySteps x (ssh_start name conn) h v = elim (Option-cases (ssh_lookup name h)) [
  | inl e ↦ rw (e, advance_ssh) (next here (effect _), tt, tt)
  | inr (a, e) ↦ rw (e, advance_ssh) (here, tt, tt)
]
advance_ssh-MovesBySteps x (ssh_found name conn a) h v =
    (next here (ssh_inserted x.new_sid name conn x.now), (omega arith, ground arith), tt)
advance_ssh-MovesBySteps x (ssh_pending sid r a) h v =
    after_open-MovesBySteps sid r (h.agent_at a).control x.written h v
advance_ssh-MovesBySteps x (ssh_unsent sid) h v =
    (next here (cleaned sid pending_closed (inr refl)), tt, tt)
advance_ssh-MovesBySteps x (ssh_sent sid r) h v =
    (next (next here (opened r v.0)) (effect _), tt, (tt, tt))

abbrev pub Anywhere : {P : Type 0} → Hub → P → Type 0
Anywhere h p = Unit {0}

pub advance_watch-MovesBySteps :
    (x : Input) (p : WatchPoint) (h : Hub) → MovesBySteps Anywhere h (advance_watch x p h)
unfolding advance_watch
advance_watch-MovesBySteps x (watching sid) h = elim (Bool-cases (timeout_check sid h)) [
  | inl e ↦ rw (e, advance_watch) (here, tt, tt)
  | inr e ↦ rw (e, advance_watch) (here, tt, tt)
]
advance_watch-MovesBySteps x (expired sid) h =
    (next here (cleaned sid pending_timeout (inl refl)), tt, tt)
