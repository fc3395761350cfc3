-- ===== src/Hub/Sessions/Laws.antt =====
-- How a pending session is bound, dropped and timed out.
use sshole.Base.{
  ℕ, ◌≡◌, refl, ◌≢◌, ◌↔◌, inl, inr, Bool, true, none, some, Str, arith, str_eq, nat_eq, ◌==◌,
  if◌then◌else◌, Option-cases,
}
use sshole.Base.Dict.{lookup, lookup-insert, lookup-erase, update}
use sshole.Common.{err_duplicate_tunnel}
use sshole.Hub.State.{
  Ref, Conn, Hub, PendingState, pending_open_sent, pending_bound, close_conn, go_watch_pending,
  send_control, emit, returned,
}
use sshole.Hub.Sessions
use sshole.Hub.Sessions.{
  cleanup_pending, mark_open_sent, insert_pending, ssh_session, ssh_lookup, on_ssh_conn,
  open_message, timeout_check, watch_pending_timeout, BindResult, bind_error, bound, bind_tunnel,
}
use sshole.Hub.Steps.Invariant.{IsWellFormed}

-- A tunnel is bound exactly if its session is pending, the agent was told to open it, and no tunnel
-- came before; the session then is bound to this tunnel, and nothing else changes.
pub bind_tunnel_iff :
    (sid : Str) (ws : Conn) (r : Ref) (h h' : Hub)
    → (bind_tunnel sid ws h ≡ bound r h') ↔ (
        (lookup sid h.pending ≡ some r)
        × ((h.session_at r).state ≡ pending_open_sent)
        × ((h.session_at r).tunnel ≡ none)
        × (h' ≡ record h {
          session_at =
              update h.session_at r
                (record (h.session_at r) { tunnel = some ws; state = pending_bound });
        }))
unfolding bind_tunnel
bind_tunnel_iff sid ws r h h' = (λ e. ground arith, λ e. ground arith)

-- A second tunnel for a bound session is refused as a duplicate.
pub bind_tunnel_twice :
    (sid : Str) (ws other : Conn) (r : Ref) (h h' : Hub)
    → bind_tunnel sid ws h ≡ bound r h'
    → bind_tunnel sid other h' ≡ bind_error err_duplicate_tunnel sid
unfolding bind_tunnel
bind_tunnel_twice sid ws other r h h' e = ground arith

-- cleanupPending takes the session's id out of the map, leaves all others, and marks the session.
pub cleanup_pending_lem :
    (sid key : Str) (s : PendingState) (h : Hub)
    → lookup key (cleanup_pending sid s h).pending
      ≡ (if key == sid then none else lookup key h.pending)
unfolding cleanup_pending
cleanup_pending_lem sid key s h = ground (arith, lookup-erase key sid h.pending)

-- An agent that dials back before the hub has recorded that OPEN was sent is refused: the session
-- is found, and yet the tunnel counts as a duplicate.
pub bind_tunnel_early :
    (sid agent : Str) (conn ws : Conn) (now : ℕ) (h : Hub)
    → bind_tunnel sid ws (insert_pending (ssh_session sid agent conn now h) h)
      ≡ bind_error err_duplicate_tunnel sid
unfolding bind_tunnel
bind_tunnel_early sid agent conn ws now h =
    ground (arith, lookup-insert sid sid h.next_session h.pending)

-- When the timer fires, a session that is not bound is taken out of the map with the state TIMEOUT;
-- a bound session, or one that is gone, is left alone.
pub watch_pending_timeout_lem :
    (sid : Str) (h : Hub)
    → IsWellFormed h
    → (lookup sid (watch_pending_timeout sid h).pending ≢ none)
      ↔ ((r : Ref) × (lookup sid h.pending ≡ some r) × ((h.session_at r).state ≡ pending_bound))
unfolding watch_pending_timeout timeout_check
watch_pending_timeout_lem sid h v = elim (Option-cases (lookup sid h.pending)) [
  | inl e ↦ (λ there. absurd (there (ground arith)), λ p. ground arith)
  | inr (r, e) ↦ (
    λ there. (r, e, ground (arith, lookup-erase sid sid h.pending, v.pending_agree sid r)),
    λ p. ground (arith, lookup-erase sid sid h.pending, v.pending_agree sid r),
  )
]

-- An SSH client of an agent that is unknown or offline has its connection closed, and no session.
pub on_ssh_conn_offline :
    (agent : Str) (conn : Conn) (sid : Str) (now : ℕ) (written : Bool) (h : Hub)
    → ((r : Ref) → lookup agent h.agents ≡ some r → (h.agent_at r).control ≡ none)
    → on_ssh_conn agent conn sid now written h ≡ returned (emit (close_conn conn) h)
unfolding on_ssh_conn ssh_lookup
on_ssh_conn_offline agent conn sid now written h offline =
    elim (Option-cases (lookup agent h.agents)) [
      | inl e ↦ ground arith
      | inr (r, e) ↦ ground (arith, offline r)
    ]

-- An SSH client of an agent that is online leaves a pending session in the state OPEN_SENT, which
-- the agent's tunnel can bind, provided that the control message is written.
pub on_ssh_conn_online :
    (agent : Str) (conn : Conn) (sid : Str) (now : ℕ) (h : Hub) {a : Ref} {c : Conn}
    → lookup agent h.agents ≡ some a
    → (h.agent_at a).control ≡ some c
    → (h' : Hub) × (on_ssh_conn agent conn sid now true h ≡ returned h')
      × (lookup sid h'.pending ≡ some h.next_session)
      × (h'.session_at h.next_session
          ≡ record (ssh_session sid agent conn now h) { state = pending_open_sent })
      × (h'.agents ≡ h.agents)
      × (h'.cfg ≡ h.cfg)
unfolding on_ssh_conn ssh_lookup Sessions.send_open Sessions.ssh_after_send
on_ssh_conn_online agent conn sid now h {a} {c} found online = (
  emit (go_watch_pending sid) (
      mark_open_sent h.next_session (
        emit (send_control c (open_message sid))
          (insert_pending (ssh_session sid agent conn now h) h))),
  ground arith,
  ground (arith, lookup-insert sid sid h.next_session h.pending),
  ground arith,
  refl,
  refl,
)
