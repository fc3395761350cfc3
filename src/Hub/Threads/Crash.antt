-- ===== src/Hub/Threads/Crash.antt =====
-- A goroutine of the hub dereferences a nil pointer only where `crashes` says.
use sshole.Base.{
  ℕ, ◌≡◌, refl, ◌∙◌, Bool, true, false, ◌||◌, Option, none, some, List, [], ◌∷◌, ◌++◌, Str, str_eq,
  Option-cases, Bool-cases, ◌==◌, is_none, All, inl, inr, subst,
}
use sshole.Base.Text.{trim_space}
use sshole.Base.Dict.{lookup}
use sshole.Tunnel.Handshake.{ReadResult, read_failed, frame, text, binary}
use sshole.Hub.State.{Conn, Hub}
use sshole.Hub.AgentWs.{
  Request, stop, continue, check_agent_request, register_agent, serve_and_save, attach_control,
  detach_control,
}
use sshole.Hub.AgentWs
use sshole.Hub.Sessions.{ssh_lookup}
use sshole.Hub.Start.{AcceptEvent, accept_error, accepted}
use sshole.Hub.Threads.{
  Thread, ssh, watch, tunnel, wait, agent, key, copies, serves, Input, AgentPoint, agent_start,
  agent_checked, agent_unknown, agent_added, agent_accepts, agent_attaches, agent_reads, agent_ends,
  KeyPoint, key_start, key_found,
}
use sshole.Hub.Threads.Ssh.{advance_ssh, advance_watch}
use sshole.Hub.Threads.Tunnel.{advance_tunnel, advance_wait, advance_copies}
use sshole.Hub.Threads.Agent.{
  advance_agent, advance_serves, advance_key, after_agent_check, after_register, after_save,
  after_read, send_key,
}
use sshole.Hub.Threads.System.{advance, System, SystemReach}
use sshole.Hub.Threads.Valid.{IsValid, IsValidAgent}
use sshole.Hub.Threads.Panics.{
  panics, crashes, panics-as_threads, panics-advance_ssh, panics-advance_watch,
  panics-advance_tunnel, panics-advance_wait, panics-advance_copies,
}
use sshole.Hub.Threads.Interleaving.{IsSound, SystemReach-IsSound, All-split}

panics-after_agent_check :
    (r : Request) (s : AgentWs.Step (Unit {0})) → panics (after_agent_check r s) ≡ false
panics-after_agent_check r (stop h) = refl
panics-after_agent_check r (continue a h) = refl

panics-after_register : (name : Str) (s : AgentWs.Step ℕ) → panics (after_register name s) ≡ false
panics-after_register name (stop h) = refl
panics-after_register name (continue port h) = refl

panics-after_save : (name : Str) (s : AgentWs.Step (Unit {0})) → panics (after_save name s) ≡ false
panics-after_save name (stop h) = refl
panics-after_save name (continue u h) = refl

panics-after_read :
    (name : Str) (ws : Conn) (r : ReadResult) (h : Hub) → panics (after_read name ws r h) ≡ false
panics-after_read name ws read_failed h = refl
panics-after_read name ws (frame text payload) h = refl
panics-after_read name ws (frame binary payload) h = refl

panics-advance_agent :
    (x : Input) (p : AgentPoint) (h : Hub) → IsValidAgent h p → panics (advance_agent x p h) ≡ false
unfolding advance_agent attach_control detach_control
panics-advance_agent x (agent_start request) h v =
    panics-after_agent_check request (check_agent_request request h)
panics-advance_agent x (agent_checked name) h v = refl
panics-advance_agent x (agent_unknown name) h v =
    panics-after_register name (register_agent name x.listen h)
panics-advance_agent x (agent_added name port) h v =
    panics-after_save name (serve_and_save name port x.written h)
panics-advance_agent x (agent_accepts name) h v = elim (Option-cases x.accepted) [
  | inl e ↦ rw (e, advance_agent) refl
  | inr (ws, e) ↦ rw (e, advance_agent) refl
]
panics-advance_agent x (agent_attaches name ws) h v = elim (Option-cases (lookup name h.agents)) [
  | inl e ↦ absurd (v e)
  | inr (r, e) ↦ rw (e, attach_control) refl
]
panics-advance_agent x (agent_reads name ws) h v = panics-after_read name ws x.read h
panics-advance_agent x (agent_ends name ws) h v = elim (Option-cases (lookup name h.agents)) [
  | inl e ↦ absurd (v e)
  | inr (r, e) ↦ rw (e, detach_control) refl
]

panics-advance_serves :
    (x : Input) (name : Str) (h : Hub) → panics (advance_serves x name h) ≡ false
unfolding advance_serves
panics-advance_serves x name h = go x.accept refl
  where
    go : (a : AcceptEvent) → x.accept ≡ a → panics (advance_serves x name h) ≡ false
    go (accept_error true) e = rw (e, advance_serves) refl
    go (accept_error false) e = rw (e, advance_serves) refl
    go (accepted conn) e = rw (e, advance_serves) refl

panics-send_key :
    (k : Str) (c : Option Conn) (written : Bool) (h : Hub)
    → panics (send_key k c written h) ≡ is_none c
panics-send_key k none written h = refl
panics-send_key k (some c) written h = refl

panics-advance_key :
    (x : Input) (p : KeyPoint) (h : Hub) → panics (advance_key x p h) ≡ crashes (key p) h
unfolding advance_key
panics-advance_key x (key_start req) h =
    elim (Bool-cases (req.agent_name == [] || trim_space req.public_key == [])) [
      | inl e ↦ rw (e, advance_key) refl
      | inr e ↦ elim (Option-cases (ssh_lookup req.agent_name h)) [
        | inl f ↦ rw (e, f, advance_key) refl
        | inr (a, f) ↦ elim (Bool-cases x.marshals) [
          | inl g ↦ rw (e, f, g, advance_key) refl
          | inr g ↦ rw (e, f, g, advance_key) refl
        ]
      ]
    ]
panics-advance_key x (key_found k a) h = panics-send_key k (h.agent_at a).control x.written h

module _ (sum256 : Str → Str) where
  pub panics-advance :
      (x : Input) (t : Thread) (h : Hub) → IsValid h t → panics (advance sum256 x t h) ≡ crashes t h
  unfolding advance
  panics-advance x (ssh p) h v =
      panics-as_threads ssh (advance_ssh x p h) ∙ panics-advance_ssh x p h
  panics-advance x (watch p) h v =
      panics-as_threads watch (advance_watch x p h) ∙ panics-advance_watch x p h
  panics-advance x (tunnel p) h v =
      panics-as_threads tunnel (advance_tunnel sum256 x p h) ∙ panics-advance_tunnel sum256 x p h v
  panics-advance x (wait p) h v =
      panics-as_threads wait (advance_wait x p h) ∙ panics-advance_wait x p h
  panics-advance x (agent p) h v =
      panics-as_threads agent (advance_agent x p h) ∙ panics-advance_agent x p h v
  panics-advance x (key p) h v =
      panics-as_threads key (advance_key x p h) ∙ panics-advance_key x p h
  panics-advance x (copies f) h v =
      panics-as_threads copies (advance_copies f h) ∙ panics-advance_copies f h
  panics-advance x (serves name) h v =
      panics-as_threads serves (advance_serves x name h) ∙ panics-advance_serves x name h

  -- In every state that the hub reaches from a sound one, however its goroutines are interleaved, a stretch
  -- of any of them dereferences nil exactly where `crashes` says: at a write to the control websocket of
  -- an agent that is offline by then, and in the copy loops of a session with no SSH connection.
  pub panics-SystemReach :
      {s s' : System}
      → SystemReach sum256 s s'
      → IsSound s
      → (before after : List Thread) (t : Thread) (x : Input) → s'.threads ≡ before ++ (t ∷ after)
      → panics (advance sum256 x t s'.hub) ≡ crashes t s'.hub
  panics-SystemReach {s' = s'} p sound before after t x e =
      let (q, (w, v)) = SystemReach-IsSound sum256 p sound in
      let valid : All (IsValid s'.hub) (before ++ (t ∷ after)) = subst (All (IsValid s'.hub)) e v in
      panics-advance x t s'.hub (All-split (IsValid s'.hub) before (t ∷ after) valid).1.0
