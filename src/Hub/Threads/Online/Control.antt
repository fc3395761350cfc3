-- ===== src/Hub/Threads/Online/Control.antt =====
-- The stretches of handleAgentWS attend to the connections of agents.
use sshole.Base.{
  ℕ, ◌≡◌, refl, ◌⊎◌, inl, inr, Bool, true, false, ◌&&◌, ◌||◌, Option, some, Str, arith, str_eq,
  nat_eq, ◌==◌, Option-cases, Bool-cases,
}
use sshole.Base.Dict.{lookup, lookup-insert}
use sshole.Tunnel.Handshake.{ReadResult, read_failed, frame, text, binary}
use sshole.Hub.State.{Conn, Hub}
use sshole.Hub.Mapping.{save_mapping}
use sshole.Hub.Ports.{find_available_port}
use sshole.Hub.Rpc.{online_control}
use sshole.Hub.AgentWs.{
  Request, stop, continue, check_agent_request, register_agent, serve_and_save, attach_control,
  detach_control, is_control,
}
use sshole.Hub.AgentWs
use sshole.Hub.Steps.Invariant.{IsWellFormed}
use sshole.Hub.Threads.{
  agent, AgentPoint, agent_start, agent_checked, agent_unknown, agent_added, agent_accepts,
  agent_attaches, agent_reads, agent_ends, Input,
}
use sshole.Hub.Threads.Agent.{
  advance_agent, after_agent_check, after_register, after_save, after_attach, after_detach,
  after_read,
}
use sshole.Hub.Threads.System.{as_threads}
use sshole.Hub.Threads.Checks.{After, OnlyTrace-After, check_agent_request-OnlyTrace}
use sshole.Hub.Threads.Online.{Attends}

-- An agent that is online after a part of the handler was so before, on the same connection.
abbrev WasOnline : Hub → Hub → Type 0
WasOnline h h' =
    (name : Str) (ws : Conn) → online_control name h' ≡ some ws → online_control name h ≡ some ws

abbrev OnlineBefore {ℓ} : {A : Type ℓ} → Hub → AgentWs.Step A → Type 0
OnlineBefore h s = After (WasOnline h) s

check_agent_request-OnlineBefore :
    (r : Request) (h : Hub) → OnlineBefore h (check_agent_request r h)
check_agent_request-OnlineBefore r h =
    OnlyTrace-After (WasOnline h) h _ (λ ts name ws u. u) (check_agent_request-OnlyTrace r h)

-- The new object is offline, and no other agent's object is in its place.
add_agent-online :
    (n : Str) (port : ℕ) (h : Hub) (name : Str) (ws : Conn)
    → IsWellFormed h
    → online_control name (AgentWs.add_agent n port h) ≡ some ws
    → online_control name h ≡ some ws
add_agent-online n port h name ws w e = elim (Option-cases (lookup name h.agents)) [
  | inl gone ↦ absurd (ground (arith, lookup-insert name n h.next_agent h.agents))
  | inr (r, found) ↦
      ground (arith, w.agents_agree name r found, lookup-insert name n h.next_agent h.agents)
]

register_agent-OnlineBefore :
    (n : Str) (listen : Option Conn) (h : Hub)
    → IsWellFormed h
    → OnlineBefore h (register_agent n listen h)
unfolding register_agent
register_agent-OnlineBefore n listen h w = elim (Option-cases (find_available_port h.ports)) [
  | inl e ↦ rw (e, register_agent) (λ name ws u. u)
  | inr (port, e) ↦ elim (Option-cases listen) [
    | inl f ↦ rw (e, f, register_agent) (λ name ws u. add_agent-online n port h name ws w u)
    | inr (ln, f) ↦ rw (e, f, register_agent) (λ name ws u. add_agent-online n port h name ws w u)
  ]
]

serve_and_save-OnlineBefore :
    (n : Str) (port : ℕ) (written : Bool) (h : Hub)
    → OnlineBefore h (serve_and_save n port written h)
unfolding serve_and_save save_mapping
serve_and_save-OnlineBefore n port true h = λ name ws u. u
serve_and_save-OnlineBefore n port false h = λ name ws u. u

after_agent_check-Attends :
    (r : Request) (h : Hub) (s : AgentWs.Step (Unit {0}))
    → OnlineBefore h s
    → Attends h (agent (agent_start r)) (as_threads agent (after_agent_check r s))
after_agent_check-Attends r h (stop h') before = λ name ws u. inr (before name ws u, refl)
after_agent_check-Attends r h (continue a h') before = λ name ws u. inr (before name ws u, refl)

after_register-Attends :
    (n : Str) (h : Hub) (s : AgentWs.Step ℕ)
    → OnlineBefore h s
    → Attends h (agent (agent_unknown n)) (as_threads agent (after_register n s))
after_register-Attends n h (stop h') before = λ name ws u. inr (before name ws u, refl)
after_register-Attends n h (continue a h') before = λ name ws u. inr (before name ws u, refl)

after_save-Attends :
    (n : Str) (port : ℕ) (h : Hub) (s : AgentWs.Step (Unit {0}))
    → OnlineBefore h s
    → Attends h (agent (agent_added n port)) (as_threads agent (after_save n s))
after_save-Attends n port h (stop h') before = λ name ws u. inr (before name ws u, refl)
after_save-Attends n port h (continue a h') before = λ name ws u. inr (before name ws u, refl)

still_attends :
    (name n : Str) (ws c : Conn) (h : Hub)
    → online_control name h ≡ some ws
    → (((name == n && ws == c) || false) ≡ true)
      ⊎ ((online_control name h ≡ some ws) × ((name == n && ws == c) ≡ false))
still_attends name n ws c h u = elim (Bool-cases (name == n && ws == c)) [
  | inl same ↦ inl (ground (arith, same))
  | inr other ↦ inr (u, other)
]

after_read-Attends :
    (n : Str) (c : Conn) (r : ReadResult) (h : Hub)
    → Attends h (agent (agent_reads n c)) (as_threads agent (after_read n c r h))
after_read-Attends n c read_failed h = λ name ws u. still_attends name n ws c h u
after_read-Attends n c (frame text payload) h = λ name ws u. still_attends name n ws c h u
after_read-Attends n c (frame binary payload) h = λ name ws u. still_attends name n ws c h u

after_attach-Attends :
    (n : Str) (c : Conn) (now : ℕ) (h : Hub)
    → IsWellFormed h
    → Attends h
        (agent (agent_attaches n c))
        (as_threads agent (after_attach n c (attach_control n c now h)))
unfolding attach_control
after_attach-Attends n c now h w = elim (Option-cases (lookup n h.agents)) [
  | inl e ↦ rw (e, attach_control) tt
  | inr (r, e) ↦
      rw (e, attach_control)
        (λ name ws u. elim (Bool-cases (name == n)) [
          | inl same ↦ inl (ground arith)
          | inr other ↦ elim (Option-cases (lookup name h.agents)) [
            | inl gone ↦ absurd (ground arith)
            | inr (q, found) ↦
                inr (ground (arith, w.agents_agree name q found, w.agents_agree n r e), refl)
          ]
        ])
]

after_detach-Attends :
    (n : Str) (c : Conn) (h : Hub)
    → IsWellFormed h
    → Attends h (agent (agent_ends n c)) (as_threads agent (after_detach c (detach_control n c h)))
unfolding detach_control
after_detach-Attends n c h w = elim (Option-cases (lookup n h.agents)) [
  | inl e ↦ rw (e, detach_control) tt
  | inr (r, e) ↦ elim (Bool-cases (is_control c (h.agent_at r).control)) [
    | inl f ↦
        rw (e, f, detach_control)
          (λ name ws u. elim (Option-cases (lookup name h.agents)) [
            | inl gone ↦ absurd (ground arith)
            | inr (q, found) ↦ inr (
              ground (arith, w.agents_agree name q found, w.agents_agree n r e),
              ground (arith, w.agents_agree name q found, w.agents_agree n r e),
            )
          ])
    | inr f ↦ rw (e, f, detach_control) (λ name ws u. inr (u, ground (arith)))
  ]
]

pub advance_agent-Attends :
    (x : Input) (p : AgentPoint) (h : Hub)
    → IsWellFormed h
    → Attends h (agent p) (as_threads agent (advance_agent x p h))
unfolding advance_agent
advance_agent-Attends x (agent_start r) h w =
    after_agent_check-Attends r h _ (check_agent_request-OnlineBefore r h)
advance_agent-Attends x (agent_checked n) h w = λ name ws u. inr (u, refl)
advance_agent-Attends x (agent_unknown n) h w =
    after_register-Attends n h _ (register_agent-OnlineBefore n x.listen h w)
advance_agent-Attends x (agent_added n port) h w =
    after_save-Attends n port h _ (serve_and_save-OnlineBefore n port x.written h)
advance_agent-Attends x (agent_accepts n) h w = elim (Option-cases x.accepted) [
  | inl e ↦ rw (e, advance_agent) (λ name ws u. inr (u, refl))
  | inr (c, e) ↦ rw (e, advance_agent) (λ name ws u. inr (u, refl))
]
advance_agent-Attends x (agent_attaches n c) h w = after_attach-Attends n c x.now h w
advance_agent-Attends x (agent_reads n c) h w = after_read-Attends n c x.read h
advance_agent-Attends x (agent_ends n c) h w = after_detach-Attends n c h w
