-- ===== src/Hub/Steps/Tunnels.antt =====
-- A session that an SSH client began keeps its first tunnel.
use sshole.Base.{◌<◌, ◌≡◌, none, some, arith, nat_eq}
use sshole.Hub.State.{Ref, Conn, Hub}
use sshole.Hub.AgentWs.{register_agent, attach_control, detach_control}
use sshole.Hub.Sessions.{cleanup_pending, mark_open_sent, bind_tunnel}
use sshole.Hub.TunnelWs.{bind_entry_session}
use sshole.Hub.Steps.{
  Step, effect, ssh_inserted, entry_inserted, opened, cleaned, tunnel_bound, entry_bound,
  agent_added, agent_not_served, attached, detached, Reach, here, next,
}

-- The object at `r` is an SSH client's session, and `ws` is its tunnel.
pub record HasTunnel (r : Ref) (ws : Conn) (h : Hub) : Type 0 where
  pub allocated : r < h.next_session
  pub from_ssh : (h.session_at r).entry_ws ≡ none
  pub connected : (h.session_at r).tunnel ≡ some ws

Step-HasTunnel :
    {h h' : Hub} {r : Ref} {ws : Conn} → Step h h' → HasTunnel r ws h → HasTunnel r ws h'
unfolding mark_open_sent cleanup_pending bind_tunnel bind_entry_session register_agent
    attach_control detach_control
Step-HasTunnel (effect e) v = record {
  allocated = v.allocated;
  from_ssh = v.from_ssh;
  connected = v.connected;
}
Step-HasTunnel (ssh_inserted key agent conn now) v = ground arith
Step-HasTunnel (entry_inserted key agent ws now) v = ground arith
Step-HasTunnel (opened r l) v = ground arith
Step-HasTunnel (cleaned key s f) v = ground arith
Step-HasTunnel (tunnel_bound key ws r e) v = ground arith
Step-HasTunnel (entry_bound r ws entry l e) v = ground arith
Step-HasTunnel (agent_added agent listen port e) v = ground arith
Step-HasTunnel (agent_not_served agent listen e) v = ground arith
Step-HasTunnel (attached agent ws now e) v = ground arith
Step-HasTunnel (detached agent ws e) v = ground arith

-- Once bound, an SSH session has the same tunnel for good, whatever runs in between.
pub Reach-HasTunnel :
    {h h' : Hub} {r : Ref} {ws : Conn} → Reach h h' → HasTunnel r ws h → HasTunnel r ws h'
Reach-HasTunnel here v = v
Reach-HasTunnel (next p s) v = Step-HasTunnel s (Reach-HasTunnel p v)
