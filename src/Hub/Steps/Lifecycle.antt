-- ===== src/Hub/Steps/Lifecycle.antt =====
-- The life of a session as a state machine: what any stretch of the hub's code may do to the object of
-- a session (PendingState and PendingSession of pkg/hub/session.go).
use sshole.Base.{◌≡◌, ◌≢◌, ◌⊎◌, none, some, nat_eq, str_eq}
use sshole.Hub.State.{
  Conn, Hub, PendingState, PendingSession, pending_init, pending_open_sent, pending_bound,
  pending_timeout, pending_closed,
}

pub data Transition (p q : PendingSession) : Type 0 where
  unchanged : q ≡ p → Transition p q
  -- The agent was told to open the tunnel.
  told : p.state ≡ pending_init → q ≡ record p { state = pending_open_sent } → Transition p q
  -- This is recorded for a session that has gone on to another state in between.
  told_late : p.state ≢ pending_init → q ≡ record p { state = pending_open_sent } → Transition p q
  -- The first tunnel of an SSH client's session that waits for it.
  bound_to_tunnel :
      (ws : Conn)
      → p.state ≡ pending_open_sent
      → p.tunnel ≡ none
      → q ≡ record p { tunnel = some ws; state = pending_bound }
      → Transition p q
  -- The first tunnel of an entry's session.
  bound_to_entry :
      (ws entry : Conn)
      → p.entry_ws ≡ some entry
      → p.tunnel ≡ none
      → q ≡ record p { tunnel = some ws; state = pending_bound }
      → Transition p q
  -- A tunnel of an entry's session that had one.
  rebound_to_entry :
      (ws entry old : Conn)
      → p.entry_ws ≡ some entry
      → p.tunnel ≡ some old
      → q ≡ record p { tunnel = some ws; state = pending_bound }
      → Transition p q
  -- The end of a session that is in neither of the final states.
  ended :
      (s : PendingState)
      → (s ≡ pending_timeout) ⊎ (s ≡ pending_closed)
      → p.state ≢ pending_timeout
      → p.state ≢ pending_closed
      → q ≡ record p { state = s }
      → Transition p q
