-- ===== src/Hub/Steps/Handlers.antt =====
-- The handlers, run by themselves, are sequences of steps.
use sshole.Base.{
  ℕ, ◌<◌, ◌≡◌, refl, ◌⊎◌, inl, inr, Bool, true, false, Option, none, some, List, [], ◌∷◌, Str,
  arith, nat_eq, str_eq, ◌==◌, Option-cases, Bool-cases,
}
use sshole.Hub.Auth.{authorized}
use sshole.Tunnel.Handshake.{ReadResult, read_failed, frame, text, binary}
use sshole.Hub.State.{Ref, Conn, Hub, pending_timeout, pending_closed, Outcome, returned, panicked}
use sshole.Hub.AgentWs.{
  Request, AgentRun, check_agent_request, register_agent, serve_and_save, register_branch,
  attach_control, detach_control, read_loop, finish_control, serve_control, handle_agent_ws, stop,
  continue,
}
use sshole.Hub.AgentWs
use sshole.Hub.Mapping.{save_mapping}
use sshole.Hub.Sessions.{
  ssh_lookup, ssh_after_send, send_open, on_ssh_conn, timeout_check, watch_pending_timeout,
}
use sshole.Hub.Steps.{
  effect, ssh_inserted, opened, cleaned, agent_added, agent_not_served, attached, detached, Reach,
  here, next, Reach-trans,
}

-- Where a handler returns, it has gone by steps.
abbrev pub Reaches : Hub → Outcome Hub → Type 0
Reaches h panicked = Unit {0}
Reaches h (returned h') = Reach h h'

ssh_after_send-Reaches :
    (h₀ h : Hub) (r : Ref) (sid : Str) (c : Option Conn) (written : Bool)
    → Reach h₀ h
    → r < h.next_session
    → Reaches h₀ (ssh_after_send r sid (send_open c sid written h))
unfolding ssh_after_send send_open
ssh_after_send-Reaches h₀ h r sid none written p l = tt
ssh_after_send-Reaches h₀ h r sid (some c) false p l =
    next p (cleaned sid pending_closed (inr refl))
ssh_after_send-Reaches h₀ h r sid (some c) true p l =
    next (next (next p (effect _)) (opened r l)) (effect _)

-- onSSHConn is a sequence of steps, on every branch.
pub on_ssh_conn-Reaches :
    (agent : Str) (conn : Conn) (sid : Str) (now : ℕ) (written : Bool) (h : Hub)
    → Reaches h (on_ssh_conn agent conn sid now written h)
unfolding on_ssh_conn
on_ssh_conn-Reaches agent conn sid now written h = elim (Option-cases (ssh_lookup agent h)) [
  | inl e ↦ rw (e, on_ssh_conn) (next here (effect _))
  | inr (a, e) ↦
      rw (e, on_ssh_conn)
        (ssh_after_send-Reaches h _ h.next_session sid _ written
          (next here (ssh_inserted sid agent conn now)) (omega arith))
]

-- The watcher of a session takes one step or none.
pub watch_pending_timeout-Reaches : (sid : Str) (h : Hub) → Reach h (watch_pending_timeout sid h)
unfolding watch_pending_timeout
watch_pending_timeout-Reaches sid h = elim (Bool-cases (timeout_check sid h)) [
  | inl e ↦ rw (e, watch_pending_timeout) (next here (cleaned sid pending_timeout (inl refl)))
  | inr e ↦ rw (e, watch_pending_timeout) here
]

pub Reaches-trans : {h h' : Hub} (o : Outcome Hub) → Reach h h' → Reaches h' o → Reaches h o
Reaches-trans panicked p q = tt
Reaches-trans (returned h'') p q = Reach-trans p q

-- What a stretch leaves, whether it answers or goes on, is reached.
abbrev pub StepReaches {ℓ} : {A : Type ℓ} → Hub → AgentWs.Step A → Type 0
StepReaches h (stop h') = Reach h h'
StepReaches h (continue a h') = Reach h h'

pub Step-cases {ℓ} :
    {A : Type ℓ} (s : AgentWs.Step A)
    → ((h : Hub) × (s ≡ stop h)) ⊎ ((a : A) × (h : Hub) × (s ≡ continue a h))
Step-cases (stop h) = inl (h, refl)
Step-cases (continue a h) = inr (a, h, refl)

pub check_agent_request-Reaches : (r : Request) (h : Hub) → StepReaches h (check_agent_request r h)
unfolding check_agent_request
check_agent_request-Reaches r h = elim (Bool-cases (r.x_agent == [])) [
  | inl e ↦ rw (e, check_agent_request) (next here (effect _))
  | inr e ↦ elim (Bool-cases (authorized h.cfg r.authorization)) [
    | inr f ↦ rw (e, f, check_agent_request) (next here (effect _))
    | inl f ↦ rw (e, f, check_agent_request) here
  ]
]

pub serve_and_save-Reaches :
    (agent : Str) (port : ℕ) (written : Bool) (h : Hub)
    → StepReaches h (serve_and_save agent port written h)
unfolding serve_and_save save_mapping
serve_and_save-Reaches agent port true h = next (next here (effect _)) (effect _)
serve_and_save-Reaches agent port false h = next (next here (effect _)) (effect _)

pub register_agent-Reaches :
    (agent : Str) (listen : Option Conn) (h : Hub) (s : AgentWs.Step ℕ)
    → register_agent agent listen h ≡ s
    → StepReaches h s
register_agent-Reaches agent listen h (stop h') e = next here (agent_not_served agent listen e)
register_agent-Reaches agent listen h (continue port h') e =
    next here (agent_added agent listen port e)

pub StepReaches-trans {ℓ} :
    {A : Type ℓ} {h h' : Hub} (s : AgentWs.Step A) → Reach h h' → StepReaches h' s → StepReaches h s
StepReaches-trans (stop h'') p q = Reach-trans p q
StepReaches-trans (continue a h'') p q = Reach-trans p q

register_branch-Reaches :
    (agent : Str) (run : AgentRun) (h : Hub) → StepReaches h (register_branch agent run h)
unfolding register_branch
register_branch-Reaches agent run h = elim (Bool-cases (AgentWs.registered agent h)) [
  | inl known ↦ rw (known, register_branch) here
  | inr new ↦ elim (Step-cases (register_agent agent run.listen h)) [
    | inl (h₁, e) ↦ rw (new, e, register_branch) (register_agent-Reaches agent run.listen h _ e)
    | inr (port, h₁, e) ↦
        rw (new, e, register_branch)
          (StepReaches-trans (serve_and_save agent port run.written h₁)
            (register_agent-Reaches agent run.listen h _ e)
            (serve_and_save-Reaches agent port run.written h₁))
  ]
]

read_loop-Reach : (ws : Conn) (reads : List ReadResult) (h : Hub) → Reach h (read_loop ws reads h)
unfolding read_loop
read_loop-Reach ws [] h = here
read_loop-Reach ws (read_failed ∷ rest) h = here
read_loop-Reach ws (frame text payload ∷ rest) h = read_loop-Reach ws rest h
read_loop-Reach ws (frame binary payload ∷ rest) h = next here (effect _)

finish_control-Reaches :
    (agent : Str) (ws : Conn) (h₀ h : Hub) (o : Outcome Hub)
    → Reach h₀ h
    → detach_control agent ws h ≡ o
    → Reaches h₀ (finish_control agent ws o)
finish_control-Reaches agent ws h₀ h panicked p e = tt
finish_control-Reaches agent ws h₀ h (returned h') p e =
    next (next p (detached agent ws e)) (effect _)

Outcome-cases {ℓ} : {A : Type ℓ} (o : Outcome A) → (o ≡ panicked) ⊎ ((a : A) × (o ≡ returned a))
Outcome-cases panicked = inl refl
Outcome-cases (returned a) = inr (a, refl)

serve_control-Reaches :
    (agent : Str) (run : AgentRun) (h : Hub) → Reaches h (serve_control agent run h)
unfolding serve_control
serve_control-Reaches agent run h = elim (Option-cases run.accepted) [
  | inl e ↦ rw (e, serve_control) here
  | inr (ws, e) ↦ elim (Outcome-cases (attach_control agent ws run.now h)) [
    | inl f ↦ rw (e, f, serve_control) tt
    | inr (h₁, f) ↦
        rw (e, f, serve_control)
          (finish_control-Reaches agent ws h (read_loop ws run.reads h₁) _
            (Reach-trans (next here (attached agent ws run.now f))
              (read_loop-Reach ws run.reads h₁))
            refl)
  ]
]

-- handleAgentWS is a sequence of steps, on every branch.
pub handle_agent_ws-Reaches :
    (r : Request) (run : AgentRun) (h : Hub) → Reaches h (handle_agent_ws r run h)
unfolding handle_agent_ws
handle_agent_ws-Reaches r run h = elim (Step-cases (check_agent_request r h)) [
  | inl (h₁, e) ↦ rw (e, handle_agent_ws) (rw e at (check_agent_request-Reaches r h))
  | inr (_, h₁, e) ↦
      let p : Reach h h₁ = rw e at (check_agent_request-Reaches r h) in
      elim (Step-cases (register_branch r.x_agent run h₁)) [
        | inl (h₂, f) ↦
            rw (e, f, handle_agent_ws)
              (Reach-trans p (rw f at (register_branch-Reaches r.x_agent run h₁)))
        | inr (_, h₂, f) ↦
            rw (e, f, handle_agent_ws)
              (Reaches-trans (serve_control r.x_agent run h₂)
                (Reach-trans p (rw f at (register_branch-Reaches r.x_agent run h₁)))
                (serve_control-Reaches r.x_agent run h₂))
      ]
]
