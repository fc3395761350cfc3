-- ===== src/Hub/Steps/Returns.antt =====
-- onSSHConn and handleAgentWS never dereference nil.
use sshole.Base.{
  ℕ, ◌≡◌, refl, ◌≢◌, inl, inr, Bool, true, false, Option, none, some, List, [], ◌∷◌, Str, arith,
  nat_eq, str_eq, Option-cases,
}
use sshole.Base.Dict.{lookup, lookup-insert}
use sshole.Tunnel.Handshake.{ReadResult, read_failed, frame, text, binary}
use sshole.Hub.State.{Ref, Conn, Hub, Outcome, returned, panicked}
use sshole.Hub.AgentWs
use sshole.Hub.AgentWs.{
  Request, AgentRun, register_agent, serve_and_save, register_branch, attach_control,
  detach_control, read_loop, serve_control, handle_agent_ws, check_agent_request, stop, continue,
}
use sshole.Hub.Ports.{find_available_port_lem}
use sshole.Hub.Mapping.{save_mapping}
use sshole.Hub.Sessions.{ssh_lookup, on_ssh_conn, ssh_after_send, send_open}
use sshole.Hub.Steps.{Reach}
use sshole.Hub.Steps.Handlers.{Reaches, Step-cases, on_ssh_conn-Reaches, handle_agent_ws-Reaches}

-- The handler's outcome is a hub that is reached.
abbrev pub ReturnsBySteps : Hub → Outcome Hub → Type 0
ReturnsBySteps h o = (h' : Hub) × (o ≡ returned h') × Reach h h'

pub by_steps : {h h' : Hub} (o : Outcome Hub) → o ≡ returned h' → Reaches h o → ReturnsBySteps h o
by_steps {h' = h'} panicked e p = absurd (ground arith)
by_steps (returned h') e p = (h', refl, p)

ssh_lookup_online :
    (agent : Str) (h : Hub) {a : Ref} → ssh_lookup agent h ≡ some a → (h.agent_at a).control ≢ none
unfolding ssh_lookup
ssh_lookup_online agent h {a} e off = ground arith

abbrev pub Returns : Outcome Hub → Type 0
Returns o = (h' : Hub) × (o ≡ returned h')

ssh_after_send-Returns :
    (r : Ref) (sid : Str) (c : Option Conn) (written : Bool) (h : Hub)
    → c ≢ none
    → Returns (ssh_after_send r sid (send_open c sid written h))
unfolding ssh_after_send send_open
ssh_after_send-Returns r sid none written h online = absurd (online refl)
ssh_after_send-Returns r sid (some c) true h online = (_, refl)
ssh_after_send-Returns r sid (some c) false h online = (_, refl)

on_ssh_conn-Returns :
    (agent : Str) (conn : Conn) (sid : Str) (now : ℕ) (written : Bool) (h : Hub)
    → Returns (on_ssh_conn agent conn sid now written h)
unfolding on_ssh_conn
on_ssh_conn-Returns agent conn sid now written h = elim (Option-cases (ssh_lookup agent h)) [
  | inl e ↦ rw (e, on_ssh_conn) (_, refl)
  | inr (a, e) ↦
      rw (e, on_ssh_conn)
        (ssh_after_send-Returns h.next_session sid _ written _ (ssh_lookup_online agent h e))
]

-- onSSHConn always returns, by a sequence of steps.
pub on_ssh_conn-ReturnsBySteps :
    (agent : Str) (conn : Conn) (sid : Str) (now : ℕ) (written : Bool) (h : Hub)
    → ReturnsBySteps h (on_ssh_conn agent conn sid now written h)
on_ssh_conn-ReturnsBySteps agent conn sid now written h =
    by_steps _ (on_ssh_conn-Returns agent conn sid now written h).1
      (on_ssh_conn-Reaches agent conn sid now written h)

attach_control_lem :
    (agent : Str) (ws : Conn) (now : ℕ) (h : Hub)
    → lookup agent h.agents ≢ none
    → (h' : Hub) × (attach_control agent ws now h ≡ returned h') × (h'.agents ≡ h.agents)
unfolding attach_control
attach_control_lem agent ws now h known = elim (Option-cases (lookup agent h.agents)) [
  | inl e ↦ absurd (known e)
  | inr (r, e) ↦ rw (e, attach_control) (_, refl, refl)
]

finish_control-Returns :
    (agent : Str) (ws : Conn) (h : Hub)
    → lookup agent h.agents ≢ none
    → Returns (AgentWs.finish_control agent ws (detach_control agent ws h))
unfolding detach_control
finish_control-Returns agent ws h known = elim (Option-cases (lookup agent h.agents)) [
  | inl e ↦ absurd (known e)
  | inr (r, e) ↦ rw (e, detach_control) (_, refl)
]

read_loop-agents :
    (ws : Conn) (reads : List ReadResult) (h : Hub) → (read_loop ws reads h).agents ≡ h.agents
unfolding read_loop
read_loop-agents ws [] h = refl
read_loop-agents ws (read_failed ∷ rest) h = refl
read_loop-agents ws (frame text payload ∷ rest) h = read_loop-agents ws rest h
read_loop-agents ws (frame binary payload ∷ rest) h = refl

serve_control-Returns :
    (agent : Str) (run : AgentRun) (h : Hub)
    → lookup agent h.agents ≢ none
    → Returns (serve_control agent run h)
unfolding serve_control
serve_control-Returns agent run h known = elim (Option-cases run.accepted) [
  | inl e ↦ rw (e, serve_control) (_, refl)
  | inr (ws, e) ↦
      let (h₁, f, same) = attach_control_lem agent ws run.now h known in
      rw (e, f, serve_control)
        (finish_control-Returns agent ws (read_loop ws run.reads h₁)
          (λ gone. known (ground (arith, read_loop-agents ws run.reads h₁))))
]

-- Where the branch goes on, the agent is known.
register_branch-known :
    (agent : Str) (run : AgentRun) (h h' : Hub)
    → register_branch agent run h ≡ continue tt h'
    → lookup agent h'.agents ≢ none
unfolding register_branch register_agent serve_and_save save_mapping
register_branch-known agent run h h' e gone =
    let (port, chosen, first) = find_available_port_lem h.ports in
    ground (arith, chosen, lookup-insert agent agent h.next_agent h.agents)

handle_agent_ws-Returns :
    (r : Request) (run : AgentRun) (h : Hub) → Returns (handle_agent_ws r run h)
unfolding handle_agent_ws
handle_agent_ws-Returns r run h = elim (Step-cases (check_agent_request r h)) [
  | inl (h₁, e) ↦ rw (e, handle_agent_ws) (h₁, refl)
  | inr (_, h₁, e) ↦ elim (Step-cases (register_branch r.x_agent run h₁)) [
    | inl (h₂, f) ↦ rw (e, f, handle_agent_ws) (h₂, refl)
    | inr (_, h₂, f) ↦
        rw (e, f, handle_agent_ws)
          (serve_control-Returns r.x_agent run h₂
            (register_branch-known r.x_agent run h₁ h₂ (ground arith)))
  ]
]

-- handleAgentWS always returns, by a sequence of steps.
pub handle_agent_ws-ReturnsBySteps :
    (r : Request) (run : AgentRun) (h : Hub) → ReturnsBySteps h (handle_agent_ws r run h)
handle_agent_ws-ReturnsBySteps r run h =
    by_steps _ (handle_agent_ws-Returns r run h).1 (handle_agent_ws-Reaches r run h)
