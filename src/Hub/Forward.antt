-- ===== src/Hub/Forward.antt =====
-- startForwarding, startWebSocketForwarding and waitForAgentAndForward of pkg/hub/hub.go.
pub mod Waiting
use sshole.Base.{Bool, true, false, Option, none, some, List, [], ◌∷◌, Str, if◌then◌else◌, str_eq}
use sshole.Base.Text.{codes}
use sshole.Base.Dict.{lookup}
use sshole.Hub.State.{
  Ref, Conn, Hub, close_conn, close_ws, forward, internal_error, emit, pending_closed,
  pending_timeout, Outcome, returned, panicked,
}
use sshole.Hub.Sessions.{cleanup_pending, is_bound}

-- The two copy loops that share a cleanup: its connections, the session that it drops, if any, and
-- whether `closeOnce` has run.
pub record Forwarding : Type 0 where
  pub left : Conn
  pub right : Conn
  pub session : Option Str
  pub closed : Bool

-- `closeOnce.Do`, at the end of each copy loop.
unfoldable pub cleanup : Forwarding → Hub → Forwarding × Hub
cleanup f h = if f.closed then (f, h) else (
  record f { closed = true },
  elim f.session [
    | none ↦ emit (close_conn f.right) (emit (close_conn f.left) h)
    | some sid ↦
        cleanup_pending sid pending_closed (emit (close_conn f.right) (emit (close_conn f.left) h))
  ],
)

-- startForwarding of the session at `r`. A missing tunnel is dereferenced by NetConn. A missing SSH
-- connection is only handed to the copy loops: `none` is the loops on a nil connection.
unfoldable pub start_forwarding : Ref → Hub → Outcome (Option Forwarding × Hub)
start_forwarding r h = elim (h.session_at r).tunnel [
  | none ↦ panicked
  | some ws ↦ elim (h.session_at r).ssh_conn [
    | none ↦ returned (none, h)
    | some ssh ↦ returned (
      some (record {
        left = ssh;
        right = ws;
        session = some (h.session_at r).session_id;
        closed = false;
      }),
      emit (forward ssh ws) h,
    )
  ]
]

unfoldable pub start_websocket_forwarding : Conn → Conn → Hub → Forwarding × Hub
start_websocket_forwarding ws₁ ws₂ h =
    (record { left = ws₁; right = ws₂; session = none; closed = false }, emit (forward ws₁ ws₂) h)

-- What the select of waitForAgentAndForward receives.
pub data WaitEvent : Type 0 where
  timer_fired tick : WaitEvent

-- The tick of the loop where the session is found. `none` goes round again.
abbrev wait_session : Conn → Ref → Hub → Option Hub
wait_session entry r h = elim (h.session_at r).tunnel [
  | none ↦ none
  | some ws ↦
      if is_bound (h.session_at r).state
      then some (start_websocket_forwarding entry ws h).1
      else none
]

-- One round.
unfoldable pub wait_round : Str → Conn → WaitEvent → Hub → Option Hub
unfolding start_websocket_forwarding
wait_round sid entry timer_fired h = some (
    cleanup_pending sid pending_timeout
      (emit (close_ws entry internal_error (codes "timeout waiting for agent")) h))
wait_round sid entry tick h = elim (lookup sid h.pending) [
  | none ↦ some (emit (close_ws entry internal_error (codes "session error")) h)
  | some r ↦ wait_session entry r h
]

-- The loop of waitForAgentAndForward, over the rounds to come: what its select receives, and the hub as
-- the other goroutines have left it by then. `none` is a loop that still waits.
unfoldable pub wait_for_agent : Str → Conn → List (Hub × WaitEvent) → Option Hub
unfolding wait_round
wait_for_agent sid entry [] = none
wait_for_agent sid entry ((h, event) ∷ rounds) =
    let later = wait_for_agent sid entry rounds in
    elim (wait_round sid entry event h) [ some h' ↦ some h' | none ↦ later ]
