-- ===== src/Hub/Forward/Waiting.antt =====
-- The loop of waitForAgentAndForward ends, and the entry is answered.
use mathlib.Core.List.{Memᴰ}
use sshole.Base.{
  ◌≡◌, refl, ◌⊎◌, inl, inr, Option, none, some, List, [], ◌∷◌, ◌++◌, Str, arith, str_eq, nat_eq,
  Option-cases,
}
use sshole.Base.Text.{codes}
use sshole.Base.Dict.{lookup}
use sshole.Hub.State.{
  Ref, Conn, set_session, Hub, Effect, forward, close_ws, close_conn, normal_closure,
  internal_error, pending_bound, pending_timeout, emit,
}
use sshole.Hub.Sessions.{cleanup_pending, close_ssh, close_tunnel}
use sshole.Hub.Forward.{
  WaitEvent, timer_fired, tick, wait_round, wait_for_agent, start_websocket_forwarding,
}

-- From `g` on, the entry's connection was forwarded to the tunnel that its session was bound to, or
-- closed with a reason.
abbrev pub IsAnswered : Str → Conn → Hub → Hub → Type 0
IsAnswered sid entry g h =
    ((ws : Conn) × (r : Ref) × (lookup sid g.pending ≡ some r)
      × ((g.session_at r).state ≡ pending_bound)
      × ((g.session_at r).tunnel ≡ some ws)
      × (h.trace ≡ forward entry ws ∷ g.trace))
    ⊎ ((reason : Str) × (later : List Effect) × (h.trace
          ≡ later ++ (close_ws entry internal_error reason ∷ g.trace)))

closes-trace :
    (t c : Option Conn) (h : Hub)
    → (later : List Effect) × ((close_tunnel t (close_ssh c h)).trace ≡ later ++ h.trace)
closes-trace none none h = ([], refl)
closes-trace none (some c) h = (close_conn c ∷ [], refl)
closes-trace (some w) none h = (close_ws w normal_closure (codes "closed") ∷ [], refl)
closes-trace (some w) (some c) h =
    (close_ws w normal_closure (codes "closed") ∷ close_conn c ∷ [], refl)

-- Dropping a session takes nothing back that was done before.
cleanup_pending-trace :
    (sid : Str) (h : Hub)
    → (later : List Effect) × ((cleanup_pending sid pending_timeout h).trace ≡ later ++ h.trace)
unfolding cleanup_pending
cleanup_pending-trace sid h = elim (Option-cases (lookup sid h.pending)) [
  | inl gone ↦ ([], ground arith)
  | inr (r, found) ↦
      let (later, e) =
        closes-trace (h.session_at r).tunnel (h.session_at r).ssh_conn
          (set_session r (record (h.session_at r) { state = pending_timeout }) h) in
      (later, ground (arith, e))
]

wait_round-IsAnswered :
    (sid : Str) (entry : Conn) (event : WaitEvent) (h h' : Hub)
    → wait_round sid entry event h ≡ some h'
    → IsAnswered sid entry h h'
unfolding wait_round start_websocket_forwarding
wait_round-IsAnswered sid entry timer_fired h h' e =
    let closing = close_ws entry internal_error (codes "timeout waiting for agent") in
    let (later, kept) = cleanup_pending-trace sid (emit closing h) in
    inr (codes "timeout waiting for agent", later, ground (arith, kept))
wait_round-IsAnswered sid entry tick h h' e = elim (Option-cases (lookup sid h.pending)) [
  | inl gone ↦ inr (codes "session error", [], ground arith)
  | inr (r, found) ↦ elim (Option-cases (h.session_at r).tunnel) [
    | inl no_tunnel ↦ absurd (ground arith)
    | inr (ws, tunnel) ↦ inl (ws, r, found, ground arith, tunnel, ground arith)
  ]
]

-- A waiting entry is answered: whatever the other goroutines do to the hub in between, the loop ends
-- at the latest when its timer fires, and in its last round it closes the entry's connection with a
-- reason, or forwards it to the tunnel that it then finds its session bound to.
pub wait_for_agent-IsAnswered :
    (sid : Str) (entry : Conn) (before after : List (Hub × WaitEvent)) (h : Hub)
    → let rounds = before ++ ((h, timer_fired) ∷ after) in
      (last : Hub × WaitEvent) × (h' : Hub) × Memᴰ last rounds
      × (wait_for_agent sid entry rounds ≡ some h')
      × IsAnswered sid entry last.0 h'
unfolding wait_for_agent
wait_for_agent-IsAnswered sid entry [] after h = (
  (h, timer_fired),
  _,
  Memᴰ.head refl,
  refl,
  wait_round-IsAnswered sid entry timer_fired h _ refl,
)
wait_for_agent-IsAnswered sid entry ((g, event) ∷ before) after h =
    elim (Option-cases (wait_round sid entry event g)) [
      | inl waits ↦
          let (last, h', there, e, answered) = wait_for_agent-IsAnswered sid entry before after h in
          (last, h', Memᴰ.tail there, ground (arith, e), answered)
      | inr (h', e) ↦ (
        (g, event),
        h',
        Memᴰ.head refl,
        ground arith,
        wait_round-IsAnswered sid entry event g h' e,
      )
    ]
