-- ===== src/Hub/Threads/Care.antt =====
-- No session of an SSH client is forgotten: while it is pending and not bound, it is in the hands of a
-- goroutine. Sessions of entries are left out: net/http recovers the panic of a handler that has
-- inserted one, and nobody watches it then.
pub mod Hands
pub mod TunnelHands
pub mod AgentHands
pub mod OtherHands
pub mod Forgotten
use sshole.Base.{
  is_none, ℕ, ◌<◌, ◌≡◌, refl, ◌≢◌, ◌⊎◌, inl, inr, sym, ◌∙◌, Bool, true, false, ◌&&◌, ◌||◌, Option,
  none, some, List, [], ◌∷◌, ◌++◌, Str, arith, str_eq, nat_eq, ◌==◌, not, Option-cases, Bool-cases,
}
use sshole.Base.Dict.{lookup, lookup-insert, lookup-erase}
use sshole.Hub.State.{
  Ref, Conn, Hub, PendingState, PendingSession, pending_init, pending_timeout, pending_closed,
  Outcome, returned, panicked,
}
use sshole.Hub.Sessions.{
  is_closed, is_bound, insert_pending, cleanup_pending, mark_open_sent, bind_tunnel, bound,
  timeout_check,
}
use sshole.Hub.Sessions.Laws.{bind_tunnel_iff}
use sshole.Hub.TunnelWs.{bind_entry_session}
use sshole.Hub.Steps.Invariant.{IsWellFormed}
use sshole.Hub.Threads.{
  Thread, ssh, watch, tunnel, SshPoint, ssh_pending, ssh_unsent, ssh_sent, WatchPoint, watching,
  expired, TunnelPoint, entry_pending, entry_unsent, entry_sent,
}

-- An SSH client's session is pending, and it is neither bound nor closed.
unfoldable pub client_waits : Str → Hub → Bool
client_waits sid h = elim (lookup sid h.pending) [
  | none ↦ false
  | some r ↦
      is_none (h.session_at r).entry_ws
      && not (is_bound (h.session_at r).state || is_closed (h.session_at r).state)
]

abbrev pub Waits : Str → Hub → Type 0
Waits sid h = client_waits sid h ≡ true

-- The goroutine is onSSHConn at the session, after it was inserted, or watches it.
abbrev pub cares : Str → Thread → Bool
cares sid (ssh (ssh_pending key r a)) = sid == key
cares sid (ssh (ssh_unsent key)) = sid == key
cares sid (ssh (ssh_sent key r)) = sid == key
cares sid (watch (watching key)) = sid == key
cares sid (watch (expired key)) = sid == key
cares sid _ = false

abbrev pub any_cares : Str → List Thread → Bool
any_cares sid [] = false
any_cares sid (t ∷ ts) = cares sid t || any_cares sid ts

-- A new session waits where it is a client's, and the others wait as they did.
pub insert_pending-Waits :
    (p : PendingSession) (h : Hub) (sid : Str)
    → IsWellFormed h
    → Waits sid (insert_pending p h)
    → ((sid == p.session_id ≡ true) × (p.entry_ws ≡ none)) ⊎ Waits sid h
unfolding client_waits
insert_pending-Waits p h sid w e = elim (Bool-cases (sid == p.session_id)) [
  | inl same ↦ inl (same, ground (arith, lookup-insert sid p.session_id h.next_session h.pending))
  | inr other ↦ elim (Option-cases (lookup sid h.pending)) [
    | inl gone ↦ absurd (ground (arith, lookup-insert sid p.session_id h.next_session h.pending))
    | inr (r, found) ↦ inr (
        ground (
          arith,
          w.pending_agree sid r found,
          lookup-insert sid p.session_id h.next_session h.pending,
        ))
  ]
]

-- A session that was dropped waits no more.
pub cleanup_pending-Waits :
    (key : Str) (s : PendingState) (h : Hub) (sid : Str)
    → IsWellFormed h
    → Waits sid (cleanup_pending key s h)
    → (sid == key ≡ false) × Waits sid h
unfolding client_waits cleanup_pending
cleanup_pending-Waits key s h sid w e = elim (Option-cases (lookup key h.pending)) [
  | inl unknown ↦ elim (Bool-cases (sid == key)) [
    | inl same ↦ absurd (ground arith)
    | inr other ↦ (other, ground arith)
  ]
  | inr (r, found) ↦ elim (Bool-cases (sid == key)) [
    | inl same ↦ absurd (ground (arith, lookup-erase sid key h.pending))
    | inr other ↦ elim (Option-cases (lookup sid h.pending)) [
      | inl gone ↦ absurd (ground (arith, lookup-erase sid key h.pending))
      | inr (q, at_q) ↦ (
        other,
        ground (
          arith,
          lookup-erase sid key h.pending,
          w.pending_agree sid q at_q,
          w.pending_agree key r found,
        ),
      )
    ]
  ]
]

pub mark_open_sent-Waits :
    (key : Str) (r : Ref) (h : Hub) (sid : Str)
    → IsWellFormed h
    → (h.session_at r).session_id ≡ key
    → Waits sid (mark_open_sent r h)
    → (sid == key ≡ true) ⊎ Waits sid h
unfolding client_waits mark_open_sent
mark_open_sent-Waits key r h sid w named e = elim (Bool-cases (sid == key)) [
  | inl same ↦ inl same
  | inr other ↦ elim (Option-cases (lookup sid h.pending)) [
    | inl gone ↦ absurd (ground (arith))
    | inr (q, found) ↦ inr (ground (arith, w.pending_agree sid q found))
  ]
]

pub bind_tunnel-Waits :
    (key : Str) (ws : Conn) (r : Ref) (h h' : Hub) (sid : Str)
    → bind_tunnel key ws h ≡ bound r h'
    → Waits sid h'
    → Waits sid h
unfolding client_waits bind_tunnel
bind_tunnel-Waits key ws r h h' sid b e =
    let (found, sent, fresh, same) = (bind_tunnel_iff key ws r h h').0 b in
    elim (Option-cases (lookup sid h.pending)) [
      | inl gone ↦ absurd (ground (arith, same))
      | inr (q, at_q) ↦ ground (arith, same)
    ]

pub bind_entry_session-Waits :
    (r : Ref) (ws : Conn) (h : Hub) (sid : Str)
    → Waits sid (bind_entry_session r ws h)
    → Waits sid h
unfolding client_waits bind_entry_session
bind_entry_session-Waits r ws h sid e = elim (Option-cases (lookup sid h.pending)) [
  | inl gone ↦ absurd (ground arith)
  | inr (q, at_q) ↦ ground arith
]
