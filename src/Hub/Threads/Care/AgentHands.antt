-- ===== src/Hub/Threads/Care/AgentHands.antt =====
-- The stretches of handleAgentWS leave every session alone.
use sshole.Base.{
  ℕ, refl, inl, inr, Bool, true, false, Option, Str, str_eq, nat_eq, Option-cases, Bool-cases,
}
use sshole.Base.Dict.{lookup}
use sshole.Tunnel.Handshake.{ReadResult, read_failed, frame, text, binary}
use sshole.Hub.State.{Conn, Hub}
use sshole.Hub.Mapping.{save_mapping}
use sshole.Hub.Ports.{find_available_port}
use sshole.Hub.AgentWs.{
  Request, stop, continue, check_agent_request, register_agent, serve_and_save, attach_control,
  detach_control, is_control, registered,
}
use sshole.Hub.AgentWs
use sshole.Hub.Threads.{
  agent, AgentPoint, agent_start, agent_checked, agent_unknown, agent_added, agent_accepts,
  agent_attaches, agent_reads, agent_ends, Input,
}
use sshole.Hub.Threads.Agent.{
  advance_agent, after_agent_check, after_register, after_save, after_read,
}
use sshole.Hub.Threads.System.{as_threads}
use sshole.Hub.Threads.Care.{client_waits}
use sshole.Hub.Threads.Care.Hands.{HandsOn}
use sshole.Hub.Threads.Care.TunnelHands.{NoneWaits, OnlyTrace-NoneWaits}
use sshole.Hub.Threads.Checks.{check_agent_request-OnlyTrace}

register_agent-NoneWaits :
    (name : Str) (listen : Option Conn) (h : Hub) → NoneWaits h (register_agent name listen h)
unfolding register_agent client_waits
register_agent-NoneWaits name listen h = elim (Option-cases (find_available_port h.ports)) [
  | inl e ↦ rw (e, register_agent) (λ sid u. u)
  | inr (port, e) ↦ elim (Option-cases listen) [
    | inl f ↦ rw (e, f, register_agent) (λ sid u. u)
    | inr (ln, f) ↦ rw (e, f, register_agent) (λ sid u. u)
  ]
]

serve_and_save-NoneWaits :
    (name : Str) (port : ℕ) (written : Bool) (h : Hub)
    → NoneWaits h (serve_and_save name port written h)
unfolding serve_and_save save_mapping client_waits
serve_and_save-NoneWaits name port true h = λ sid u. u
serve_and_save-NoneWaits name port false h = λ sid u. u

after_agent_check-HandsOn :
    (r : Request) (h : Hub) (s : AgentWs.Step (Unit {0}))
    → NoneWaits h s
    → HandsOn h (agent (agent_start r)) (as_threads agent (after_agent_check r s))
after_agent_check-HandsOn r h (stop h') keeps = λ sid u. inr (keeps sid u, refl)
after_agent_check-HandsOn r h (continue a h') keeps = λ sid u. inr (keeps sid u, refl)

after_register-HandsOn :
    (name : Str) (h : Hub) (s : AgentWs.Step ℕ)
    → NoneWaits h s
    → HandsOn h (agent (agent_unknown name)) (as_threads agent (after_register name s))
after_register-HandsOn name h (stop h') keeps = λ sid u. inr (keeps sid u, refl)
after_register-HandsOn name h (continue a h') keeps = λ sid u. inr (keeps sid u, refl)

after_save-HandsOn :
    (name : Str) (port : ℕ) (h : Hub) (s : AgentWs.Step (Unit {0}))
    → NoneWaits h s
    → HandsOn h (agent (agent_added name port)) (as_threads agent (after_save name s))
after_save-HandsOn name port h (stop h') keeps = λ sid u. inr (keeps sid u, refl)
after_save-HandsOn name port h (continue a h') keeps = λ sid u. inr (keeps sid u, refl)

after_read-HandsOn :
    (name : Str) (ws : Conn) (r : ReadResult) (h : Hub)
    → HandsOn h (agent (agent_reads name ws)) (as_threads agent (after_read name ws r h))
unfolding client_waits
after_read-HandsOn name ws read_failed h = λ sid u. inr (u, refl)
after_read-HandsOn name ws (frame text payload) h = λ sid u. inr (u, refl)
after_read-HandsOn name ws (frame binary payload) h = λ sid u. inr (u, refl)

pub advance_agent-HandsOn :
    (x : Input) (p : AgentPoint) (h : Hub)
    → HandsOn h (agent p) (as_threads agent (advance_agent x p h))
unfolding advance_agent attach_control detach_control client_waits
advance_agent-HandsOn x (agent_start r) h =
    after_agent_check-HandsOn r h _ (OnlyTrace-NoneWaits h _ (check_agent_request-OnlyTrace r h))
advance_agent-HandsOn x (agent_checked name) h = λ sid u. inr (u, refl)
advance_agent-HandsOn x (agent_unknown name) h =
    after_register-HandsOn name h _ (register_agent-NoneWaits name x.listen h)
advance_agent-HandsOn x (agent_added name port) h =
    after_save-HandsOn name port h _ (serve_and_save-NoneWaits name port x.written h)
advance_agent-HandsOn x (agent_accepts name) h = elim (Option-cases x.accepted) [
  | inl e ↦ rw (e, advance_agent) (λ sid u. inr (u, refl))
  | inr (ws, e) ↦ rw (e, advance_agent) (λ sid u. inr (u, refl))
]
advance_agent-HandsOn x (agent_attaches name ws) h = elim (Option-cases (lookup name h.agents)) [
  | inl e ↦ rw (e, attach_control) tt
  | inr (r, e) ↦ rw (e, attach_control) (λ sid u. inr (u, refl))
]
advance_agent-HandsOn x (agent_reads name ws) h = after_read-HandsOn name ws x.read h
advance_agent-HandsOn x (agent_ends name ws) h = elim (Option-cases (lookup name h.agents)) [
  | inl e ↦ rw (e, detach_control) tt
  | inr (r, e) ↦ elim (Bool-cases (is_control ws (h.agent_at r).control)) [
    | inl f ↦ rw (e, f, detach_control) (λ sid u. inr (u, refl))
    | inr f ↦ rw (e, f, detach_control) (λ sid u. inr (u, refl))
  ]
]
