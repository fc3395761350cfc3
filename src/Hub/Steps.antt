-- ===== src/Hub/Steps.antt =====
-- The hub's concurrency: every goroutine's locked stretches as one step relation, in any order. The
-- constructors are the stretches of Sessions, AgentWs and TunnelWs, with what their callers know.
pub mod Invariant
pub mod Handlers
pub mod Tunnels
pub mod Lifecycle
pub mod Returns
pub mod TunnelHandler
pub mod TunnelReturns
pub mod Listeners
use sshole.Base.{ℕ, ◌<◌, ◌≡◌, ◌⊎◌, Option, none, some, Str}
use sshole.Hub.State.{
  Ref, Conn, Hub, Effect, PendingState, pending_timeout, pending_closed, emit, Outcome, returned,
}
use sshole.Hub.AgentWs.{register_agent, attach_control, detach_control, stop, continue}
use sshole.Hub.Sessions.{
  cleanup_pending, mark_open_sent, insert_pending, ssh_session, bind_tunnel, bound,
}
use sshole.Hub.TunnelWs.{bind_entry_session, entry_session}

pub data Step : Hub → Hub → Type 0 where
  -- What changes no map and no object: sends, closes, replies, goroutines that start.
  effect : {h : Hub} (e : Effect) → Step h (emit e h)
  ssh_inserted :
      {h : Hub} (sid agent : Str) (conn : Conn) (now : ℕ)
      → Step h (insert_pending (ssh_session sid agent conn now h) h)
  entry_inserted :
      {h : Hub} (sid agent : Str) (ws : Conn) (now : ℕ)
      → Step h (insert_pending (entry_session sid agent ws now h) h)
  -- `p.State = PendingOPEN_SENT`, by whoever still holds the pointer.
  opened : {h : Hub} (r : Ref) → r < h.next_session → Step h (mark_open_sent r h)
  cleaned :
      {h : Hub} (sid : Str) (s : PendingState)
      → (s ≡ pending_timeout) ⊎ (s ≡ pending_closed)
      → Step h (cleanup_pending sid s h)
  tunnel_bound :
      {h h' : Hub} (sid : Str) (ws : Conn) (r : Ref) → bind_tunnel sid ws h ≡ bound r h' → Step h h'
  entry_bound :
      {h : Hub} (r : Ref) (ws entry : Conn)
      → r < h.next_session
      → (h.session_at r).entry_ws ≡ some entry
      → Step h (bind_entry_session r ws h)
  agent_added :
      {h h' : Hub} (agent : Str) (listen : Option Conn) (port : ℕ)
      → register_agent agent listen h ≡ continue port h'
      → Step h h'
  agent_not_served :
      {h h' : Hub} (agent : Str) (listen : Option Conn)
      → register_agent agent listen h ≡ stop h'
      → Step h h'
  attached :
      {h h' : Hub} (agent : Str) (ws : Conn) (now : ℕ)
      → attach_control agent ws now h ≡ returned h'
      → Step h h'
  detached :
      {h h' : Hub} (agent : Str) (ws : Conn) → detach_control agent ws h ≡ returned h' → Step h h'

pub data Reach (h : Hub) : Hub → Type 0 where
  here : Reach h h
  next : {h' h'' : Hub} → Reach h h' → Step h' h'' → Reach h h''

pub Reach-trans : {h h' h'' : Hub} → Reach h h' → Reach h' h'' → Reach h h''
Reach-trans p here = p
Reach-trans p (next q s) = next (Reach-trans p q) s
