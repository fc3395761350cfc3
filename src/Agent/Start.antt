-- ===== src/Agent/Start.antt =====
-- connectControl and the frame of Start in pkg/agent/agent.go.
use sshole.Base.{Bool, Option, none, some, List, [], if◌then◌else◌}
use sshole.Hub.State.{Conn}
use sshole.Hub.AgentWs.{Request}
use sshole.Agent.Config.{AgentConfig, with_defaults}
use sshole.Agent.Control.{Progress, Round, start_loop}
use sshole.Agent.Requests.{http_header}
use sshole.Agent.Sshd.{Sshd, already_listening, started}

-- The request of the dial, where the URL is parsed, and the control connection.
unfoldable pub connect_control : AgentConfig → Bool → Option Conn → Option Request × Option Conn
connect_control c url_parsed dialled =
    if url_parsed then (some (http_header c.token c.agent_name []), dialled) else (none, none)

-- New: the configuration with its defaults.
unfoldable pub new : AgentConfig → AgentConfig
unfolding with_defaults
new c = with_defaults c

-- How Start goes: the server for SSH fails, or the loop runs with or without it.
pub data Started : Type 0 where
  sshd_failed : Sshd → Started
  serving_sshd skipping_sshd : Progress → Started

abbrev after_sshd : AgentConfig → Sshd → List Round → Started
after_sshd c already_listening rounds = serving_sshd (start_loop c 0 rounds)
after_sshd c started rounds = serving_sshd (start_loop c 0 rounds)
after_sshd c failure rounds = sshd_failed failure

unfoldable pub start : AgentConfig → Sshd → List Round → Started
start c sshd rounds =
    if c.skip_sshd then skipping_sshd (start_loop c 0 rounds) else after_sshd c sshd rounds
