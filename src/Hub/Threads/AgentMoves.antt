-- ===== src/Hub/Threads/AgentMoves.antt =====
-- The stretches of handleAgentWS, servePort and AppendKnownHost go by steps.
use sshole.Base.{
  ℕ, ◌≡◌, refl, inl, inr, Bool, true, false, ◌||◌, Option, none, some, [], Str, arith, str_eq,
  nat_eq, Option-cases, Bool-cases, ◌==◌,
}
use sshole.Base.Text.{trim_space}
use sshole.Base.Dict.{lookup, lookup-insert}
use sshole.Tunnel.Handshake.{ReadResult, read_failed, frame, text, binary}
use sshole.Hub.State.{Conn, Hub, Outcome, returned, panicked}
use sshole.Hub.AgentWs.{
  Request, stop, continue, check_agent_request, registered, register_agent, serve_and_save,
  attach_control, detach_control,
}
use sshole.Hub.AgentWs
use sshole.Hub.Ports.{find_available_port_lem}
use sshole.Hub.Sessions.{ssh_lookup}
use sshole.Hub.Start.{AcceptEvent, accept_error, accepted}
use sshole.Hub.Steps.{effect, attached, detached, Reach, here, next}
use sshole.Hub.Steps.Handlers.{
  StepReaches, check_agent_request-Reaches, serve_and_save-Reaches, register_agent-Reaches,
}
use sshole.Hub.Threads.{
  AgentPoint, agent_start, agent_checked, agent_unknown, agent_added, agent_accepts, agent_attaches,
  agent_reads, agent_ends, KeyPoint, key_start, key_found, Input, agent,
}
use sshole.Hub.Threads.Agent.{
  advance_agent, advance_serves, advance_key, after_agent_check, after_register, after_save,
  after_attach, after_detach, after_read, send_key,
}
use sshole.Hub.Threads.Valid.{IsValidAgent, Known, Reach-IsValid}
use sshole.Hub.Threads.Moves.{MovesBySteps, Anywhere}

after_agent_check-MovesBySteps :
    (r : Request) (h : Hub) (s : AgentWs.Step (Unit {0}))
    → StepReaches h s
    → MovesBySteps IsValidAgent h (after_agent_check r s)
after_agent_check-MovesBySteps r h (stop h') p = (p, tt, tt)
after_agent_check-MovesBySteps r h (continue a h') p = (p, tt, tt)

register_agent-Known :
    (name : Str) (listen : Option Conn) (port : ℕ) (h h' : Hub)
    → register_agent name listen h ≡ continue port h'
    → Known name h'
unfolding register_agent
register_agent-Known name listen port h h' e gone =
    let (free, chosen, first) = find_available_port_lem h.ports in
    ground (arith, chosen, lookup-insert name name h.next_agent h.agents)

after_register-MovesBySteps :
    (name : Str) (listen : Option Conn) (h : Hub) (s : AgentWs.Step ℕ)
    → register_agent name listen h ≡ s
    → MovesBySteps IsValidAgent h (after_register name s)
after_register-MovesBySteps name listen h (stop h') e =
    (register_agent-Reaches name listen h (stop h') e, tt, tt)
after_register-MovesBySteps name listen h (continue port h') e = (
  register_agent-Reaches name listen h (continue port h') e,
  register_agent-Known name listen port h h' e,
  tt,
)

after_save-MovesBySteps :
    (name : Str) (h : Hub) (s : AgentWs.Step (Unit {0}))
    → StepReaches h s
    → Known name h
    → MovesBySteps IsValidAgent h (after_save name s)
after_save-MovesBySteps name h (stop h') p v = (p, tt, (tt, tt))
after_save-MovesBySteps name h (continue u h') p v =
    (p, Reach-IsValid (agent (agent_accepts name)) p v, (tt, tt))

after_attach-MovesBySteps :
    (name : Str) (ws : Conn) (now : ℕ) (h : Hub) (o : Outcome Hub)
    → attach_control name ws now h ≡ o
    → Known name h
    → MovesBySteps IsValidAgent h (after_attach name ws o)
after_attach-MovesBySteps name ws now h panicked e v = tt
after_attach-MovesBySteps name ws now h (returned h') e v =
    let p : Reach h h' = next here (attached name ws now e) in
    (p, Reach-IsValid (agent (agent_accepts name)) p v, tt)

after_detach-MovesBySteps :
    (name : Str) (ws : Conn) (h : Hub) (o : Outcome Hub)
    → detach_control name ws h ≡ o
    → MovesBySteps IsValidAgent h (after_detach ws o)
after_detach-MovesBySteps name ws h panicked e = tt
after_detach-MovesBySteps name ws h (returned h') e =
    (next (next here (detached name ws e)) (effect _), tt, tt)

after_read-MovesBySteps :
    (name : Str) (ws : Conn) (r : ReadResult) (h : Hub)
    → Known name h
    → MovesBySteps IsValidAgent h (after_read name ws r h)
after_read-MovesBySteps name ws read_failed h v = (here, v, tt)
after_read-MovesBySteps name ws (frame text payload) h v = (here, v, tt)
after_read-MovesBySteps name ws (frame binary payload) h v = (next here (effect _), v, tt)

pub advance_agent-MovesBySteps :
    (x : Input) (p : AgentPoint) (h : Hub)
    → IsValidAgent h p
    → MovesBySteps IsValidAgent h (advance_agent x p h)
unfolding advance_agent
advance_agent-MovesBySteps x (agent_start request) h v =
    after_agent_check-MovesBySteps request h _ (check_agent_request-Reaches request h)
advance_agent-MovesBySteps x (agent_checked name) h v = elim (Option-cases (lookup name h.agents)) [
  | inl e ↦ rw (e, advance_agent) (here, tt, tt)
  | inr (r, e) ↦ rw (e, advance_agent) (here, (λ gone. ground arith), tt)
]
advance_agent-MovesBySteps x (agent_unknown name) h v =
    after_register-MovesBySteps name x.listen h _ refl
advance_agent-MovesBySteps x (agent_added name port) h v =
    after_save-MovesBySteps name h _ (serve_and_save-Reaches name port x.written h) v
advance_agent-MovesBySteps x (agent_accepts name) h v = elim (Option-cases x.accepted) [
  | inl e ↦ rw (e, advance_agent) (here, tt, tt)
  | inr (ws, e) ↦ rw (e, advance_agent) (here, v, tt)
]
advance_agent-MovesBySteps x (agent_attaches name ws) h v =
    after_attach-MovesBySteps name ws x.now h _ refl v
advance_agent-MovesBySteps x (agent_reads name ws) h v = after_read-MovesBySteps name ws x.read h v
advance_agent-MovesBySteps x (agent_ends name ws) h v = after_detach-MovesBySteps name ws h _ refl

pub advance_serves-MovesBySteps :
    (x : Input) (name : Str) (h : Hub) → MovesBySteps Anywhere h (advance_serves x name h)
unfolding advance_serves
advance_serves-MovesBySteps x name h = go x.accept refl
  where
    go : (a : AcceptEvent) → x.accept ≡ a → MovesBySteps Anywhere h (advance_serves x name h)
    go (accept_error true) e = rw (e, advance_serves) (here, tt, tt)
    go (accept_error false) e = rw (e, advance_serves) (here, tt, tt)
    go (accepted conn) e = rw (e, advance_serves) (next here (effect _), tt, (tt, tt))

send_key-MovesBySteps :
    (key : Str) (c : Option Conn) (written : Bool) (h : Hub)
    → MovesBySteps Anywhere h (send_key key c written h)
send_key-MovesBySteps key none written h = tt
send_key-MovesBySteps key (some c) true h = (next here (effect _), tt, tt)
send_key-MovesBySteps key (some c) false h = (here, tt, tt)

pub advance_key-MovesBySteps :
    (x : Input) (p : KeyPoint) (h : Hub) → MovesBySteps Anywhere h (advance_key x p h)
unfolding advance_key
advance_key-MovesBySteps x (key_start req) h =
    elim (Bool-cases (req.agent_name == [] || trim_space req.public_key == [])) [
      | inl e ↦ rw (e, advance_key) (here, tt, tt)
      | inr e ↦ elim (Option-cases (ssh_lookup req.agent_name h)) [
        | inl f ↦ rw (e, f, advance_key) (here, tt, tt)
        | inr (a, f) ↦ elim (Bool-cases x.marshals) [
          | inl g ↦ rw (e, f, g, advance_key) (here, tt, tt)
          | inr g ↦ rw (e, f, g, advance_key) (here, tt, tt)
        ]
      ]
    ]
advance_key-MovesBySteps x (key_found key a) h =
    send_key-MovesBySteps key (h.agent_at a).control x.written h
