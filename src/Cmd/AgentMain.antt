-- ===== src/Cmd/AgentMain.antt =====
-- cmd/agent/main.go and run.go.
use sshole.Base.{
  ℕ, ◌*◌, Bool, false, Option, none, some, List, [], Str, ◌==◌, nat_eq, str_eq, if◌then◌else◌,
}
use sshole.Common.{second, default_timeouts}
use sshole.Agent.Config.{AgentConfig}
use sshole.Agent.Control.{Round}
use sshole.Agent.Lock.{Acquired, holds_lock}
use sshole.Agent.Sshd.{Sshd}
use sshole.Agent.Start

pub record AgentCli : Type 0 where
  pub hub_server : Str
  pub auth : Str
  pub name : Str
  pub local_port : ℕ
  pub skip_sshd : Bool
  pub tunnel_dial : ℕ

unfoldable pub default_agent_cli : AgentCli
default_agent_cli = record {
  hub_server = [];
  auth = [];
  name = [];
  local_port = 22222;
  skip_sshd = false;
  tunnel_dial = 5 * second;
}

unfoldable pub agent_config : AgentCli → Str → AgentConfig
agent_config cli name = record {
  hub_url = cli.hub_server;
  token = cli.auth;
  agent_name = name;
  local_port = cli.local_port;
  skip_sshd = cli.skip_sshd;
  timeouts = record default_timeouts { tunnel_dial_timeout = cli.tunnel_dial };
}

-- The agent's name: the flag, or else the host's name, where it is known.
unfoldable pub agent_name : AgentCli → Option Str → Option Str
agent_name cli hostname = if cli.name == [] then hostname else some cli.name

pub data AgentEnd : Type 0 where
  fatal_lock : Acquired → AgentEnd
  panic_no_hub_server panic_no_hostname : AgentEnd
  agent_ran : AgentConfig → Start.Started → AgentEnd

-- From the lock on.
abbrev pub with_lock : AgentCli → Option Str → Sshd → List Round → AgentEnd
with_lock cli hostname sshd rounds =
    if cli.hub_server == [] then panic_no_hub_server else elim (agent_name cli hostname) [
      | none ↦ panic_no_hostname
      | some name ↦
          let c = Start.new (agent_config cli name) in agent_ran c (Start.start c sshd rounds)
    ]

-- main: `lock` is what AcquireInstanceLock returns.
unfoldable pub agent_main : AgentCli → Acquired → Option Str → Sshd → List Round → AgentEnd
agent_main cli holds_lock hostname sshd rounds = with_lock cli hostname sshd rounds
agent_main cli failure hostname sshd rounds = fatal_lock failure
