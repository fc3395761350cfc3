-- ===== src/Tests/Flows.antt =====
-- Whole connections and a whole key at concrete values.
use sshole.Base.{
  ◌≡◌, refl, true, none, some, List, [], ◌∷◌, arith, ℕ_discrete, str_discrete, str_eq, nat_eq,
}
use sshole.Base.Text.{codes, trim_space}
use sshole.Base.Dict.{lookup, insert}
use sshole.Tunnel.Handshake.{frame, text, ReadResult, send_handshake}
use sshole.Hub.State.{Conn, Hub, emit, returned, forward, pending_bound, send_control, Ref}
use sshole.Hub.Forward.{wait_round, tick}
use sshole.Hub.Sessions.{on_ssh_conn}
use sshole.Hub.TunnelWs.{handle_tunnel_ws}
use sshole.Hub.Rpc.{AgentInfo, append_known_host, online_control, known_host_message, reply}
use sshole.Agent.Control.{append_key, read_control}
use sshole.Agent.Requests.{http_header}
use sshole.Agent.Tunnel.{
  OpenRun, OpenStep, handle_open, dial_hub, write_frame, dial_sshd, copy_both_ways, close_both,
}
use sshole.Entry.Pick.{picked, append_request}
use sshole.Entry.Connection
use sshole.Entry.Connection.{ConnStep, handle_conn, tunnel_request, tunnel_url}
use sshole.Flow.{ssh_connection_forwards, entry_connection_forwards}
use sshole.Hub.AgentWs.{AgentRun, check_agent_request, register_branch, attach_control, continue}
use sshole.Agent.Config.{AgentConfig}
use sshole.Agent.Start.{connect_control}
use sshole.Flow.Online.{agent_comes_online}
use sshole.Flow.Keys.{key_reaches_agent}
use sshole.Tests.Data.{
  digest, alpha, gamma, gamma_entry, secret, sid, online, alpha_entry, no_session_yet,
}
use sshole.Tests.Ends.{agent_cfg, entry_cfg, write_message, read_message, reads_back}

abbrev open_run : OpenRun
open_run = record { url_parsed = true; tunnel = some 90; frame_written = true; sshd = some 91 }

abbrev sshd_steps : List OpenStep
sshd_steps = dial_sshd 22 ∷ copy_both_ways 90 91 ∷ close_both 90 91 ∷ []

opened :
    handle_open digest agent_cfg sid open_run
    ≡ dial_hub (http_header secret alpha sid)
      ∷ write_frame (send_handshake digest sid).0 (send_handshake digest sid).1
      ∷ sshd_steps
unfolding handle_open
opened = refl

ssh_connection_forwards_example :
    (h' h'' : Hub) × (on_ssh_conn alpha 20 sid 4 true online ≡ returned h')
    × (handle_tunnel_ws digest
          (http_header secret alpha sid)
          (record {
            accepted = some 30;
            first_read = frame (send_handshake digest sid).0 (send_handshake digest sid).1;
            now = 5;
            written = true;
          })
          h'
        ≡ returned h'')
    × ((h''.session_at online.next_session).state ≡ pending_bound)
    × (h''.trace ≡ forward 20 30 ∷ h'.trace)
unfolding ℕ_discrete
ssh_connection_forwards_example =
    ssh_connection_forwards digest agent_cfg sid 20 30 7 0 4 5 true online open_run
      (http_header secret alpha sid) (send_handshake digest sid).0 (send_handshake digest sid).1
      sshd_steps (ground arith) (ground arith) (ground arith) refl alpha_entry refl opened

abbrev info : AgentInfo
info = record { agent_name = alpha; hub_port = 10000; online = true }

abbrev conn_steps : List ConnStep
conn_steps = Connection.copy_both_ways ∷ Connection.close_tunnel ∷ Connection.close_local ∷ []

asked :
    handle_conn digest entry_cfg sid (picked info) true true
    ≡ Connection.dial_hub (tunnel_url (codes "http://h")) (tunnel_request entry_cfg alpha sid)
      ∷ Connection.write_frame (send_handshake digest sid).0 (send_handshake digest sid).1
      ∷ conn_steps
unfolding handle_conn
asked = refl

entry_connection_forwards_example :
    (h₁ h₂ : Hub) × (handle_tunnel_ws digest
        (tunnel_request entry_cfg alpha sid)
        (record {
          accepted = some 60;
          first_read = frame (send_handshake digest sid).0 (send_handshake digest sid).1;
          now = 4;
          written = true;
        })
        online
      ≡ returned h₁)
    × (handle_tunnel_ws digest
          (http_header secret alpha sid)
          (record {
            accepted = some 30;
            first_read = frame (send_handshake digest sid).0 (send_handshake digest sid).1;
            now = 5;
            written = true;
          })
          h₁
        ≡ returned h₂)
    × (wait_round sid 60 tick h₂ ≡ some (emit (forward 60 30) h₂))
unfolding ℕ_discrete
entry_connection_forwards_example =
    entry_connection_forwards digest entry_cfg agent_cfg sid info 60 30 7 0 4 5 true true true
      online open_run (tunnel_url (codes "http://h")) (tunnel_request entry_cfg alpha sid)
      (http_header secret alpha sid) (send_handshake digest sid).0 (send_handshake digest sid).0
      (send_handshake digest sid).1 (send_handshake digest sid).1 conn_steps sshd_steps
      (ground arith) refl (ground arith) (ground arith) refl refl alpha_entry refl no_session_yet
      asked opened

abbrev told : Hub
told = emit (send_control 7 (known_host_message (codes "k"))) online

append_accepted :
    append_known_host (λ m. true) none (append_request alpha (codes " k")) online ≡ (reply tt, told)
unfolding append_known_host append_request trim_space lookup insert ℕ_discrete str_discrete
append_accepted = refl

key_reaches_agent_example :
    (c : Conn) × (online_control alpha online ≡ some c)
    × (told ≡ emit (send_control c (known_host_message (trim_space (codes " k")))) online)
    × ((rest : List ReadResult)
        → read_control read_message
            (frame text (write_message (known_host_message (trim_space (codes " k")))) ∷ rest)
          ≡ append_key (trim_space (codes " k")) ∷ read_control read_message rest)
key_reaches_agent_example =
    key_reaches_agent write_message read_message (λ m. true) none alpha (codes " k") online told
      (reads_back (known_host_message (trim_space (codes " k")))) append_accepted

abbrev gamma_cfg : AgentConfig
gamma_cfg = record agent_cfg { agent_name = gamma }

abbrev gamma_run : AgentRun
gamma_run = record { listen = some 40; written = true; accepted = some 41; now = 9; reads = [] }

agent_comes_online_example :
    (h₁ h₂ : Hub) × (a : Ref) × (check_agent_request (http_header secret gamma []) online
      ≡ continue tt online)
    × (register_branch (http_header secret gamma []).x_agent gamma_run online ≡ continue tt h₁)
    × (attach_control (http_header secret gamma []).x_agent 41 9 h₁ ≡ returned h₂)
    × (lookup gamma h₂.agents ≡ some a)
    × ((h₂.agent_at a).control ≡ some 41)
    × (lookup (h₂.agent_at a).hub_port h₂.ports ≡ some gamma)
    × (lookup (h₂.agent_at a).hub_port h₂.listeners ≡ some 40)
    × (h₂.cfg ≡ online.cfg)
unfolding connect_control
agent_comes_online_example =
    agent_comes_online gamma_cfg 40 41 (some 41) gamma_run (http_header secret gamma []) online
      (ground arith) (ground arith) refl gamma_entry refl refl refl
