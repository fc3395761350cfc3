-- ===== src/Agent/Tunnel.antt =====
-- handleOpen of pkg/agent/agent.go: the agent's end of one tunnel. What the dials and the write
-- answer is an argument.
use sshole.Base.{ℕ, ◌≡◌, Bool, Option, none, some, List, [], ◌∷◌, Str, if◌then◌else◌, arith}
use sshole.Base.Text.{codes}
use sshole.Tunnel.Handshake.{MessageType, send_handshake}
use sshole.Hub.State.{Conn, CloseStatus, policy_violation, internal_error}
use sshole.Hub.AgentWs.{Request}
use sshole.Agent.Config.{AgentConfig}
use sshole.Agent.Requests.{http_header}

pub data OpenStep : Type 0 where
  dial_hub : Request → OpenStep
  write_frame : MessageType → Str → OpenStep
  dial_sshd : ℕ → OpenStep
  close_tunnel : CloseStatus → Str → OpenStep
  copy_both_ways : Conn → Conn → OpenStep
  -- The cleanup that `closeOnce` runs once, when either copy ends.
  close_both : Conn → Conn → OpenStep

-- What the network answers during one run.
pub record OpenRun : Type 0 where
  pub url_parsed : Bool
  pub tunnel : Option Conn
  pub frame_written : Bool
  pub sshd : Option Conn

after_write : AgentConfig → Conn → Option Conn → List OpenStep
after_write c ws none =
    dial_sshd c.local_port ∷ close_tunnel internal_error (codes "local dial failed") ∷ []
after_write c ws (some local) =
    dial_sshd c.local_port ∷ copy_both_ways ws local ∷ close_both ws local ∷ []

module _ (sum256 : Str → Str) where
  after_dial : AgentConfig → Str → OpenRun → Option Conn → List OpenStep
  unfolding after_write
  after_dial c sid run none = []
  after_dial c sid run (some ws) =
      let (kind, payload) = send_handshake sum256 sid in
      write_frame kind payload
      ∷ (if run.frame_written
          then after_write c ws run.sshd
          else close_tunnel policy_violation (codes "handshake failed") ∷ [])

  unfoldable pub handle_open : AgentConfig → Str → OpenRun → List OpenStep
  unfolding after_dial
  handle_open c sid run =
      if run.url_parsed
      then dial_hub (http_header c.token c.agent_name sid) ∷ after_dial c sid run run.tunnel
      else []

-- The first thing that the agent sends on a tunnel that it opened: its request and its frame.
pub handle_open_frame :
    (sum256 : Str → Str) (c : AgentConfig) (sid : Str) (run : OpenRun) (r : Request)
    (kind : MessageType) (payload : Str) (rest : List OpenStep)
    → handle_open sum256 c sid run ≡ dial_hub r ∷ write_frame kind payload ∷ rest
    → (r ≡ http_header c.token c.agent_name sid) × ((kind, payload) ≡ send_handshake sum256 sid)
unfolding handle_open
handle_open_frame sum256 c sid run r kind payload rest e = ground arith
