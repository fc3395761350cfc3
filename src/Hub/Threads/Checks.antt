-- ===== src/Hub/Threads/Checks.antt =====
-- The parts of the handlers that read a request and its first frame change nothing but the trace.
use sshole.Base.{
  ◌≡◌, refl, sym, subst, List, [], Str, str_eq, nat_eq, ◌==◌, Option-cases, Bool-cases, inl, inr,
  length,
}
use sshole.Base.Dict.{lookup}
use sshole.Tunnel.Handshake.{
  ReadResult, read_failed, frame, text, binary, handshake_size, read_handshake,
}
use sshole.Hub.State.{Conn, Hub, Effect}
use sshole.Hub.Auth.{authorized}
use sshole.Hub.AgentWs.{Request, stop, continue, check_agent_request}
use sshole.Hub.AgentWs
use sshole.Hub.TunnelWs.{
  check_tunnel_request, session_of_frame, session_of_header, session_of_request,
}

abbrev SameButTrace : Hub → Hub → Type 0
SameButTrace h h' = (ts : List Effect) × (h' ≡ record h { trace = ts })

abbrev pub OnlyTrace {ℓ} : {A : Type ℓ} → Hub → AgentWs.Step A → Type 0
OnlyTrace h (stop h') = SameButTrace h h'
OnlyTrace h (continue a h') = SameButTrace h h'

-- A property of the hub after such a part that does not read the trace held before it.
abbrev pub After {ℓ} : {A : Type ℓ} → (Hub → Type 0) → AgentWs.Step A → Type 0
After holds (stop h') = holds h'
After holds (continue a h') = holds h'

pub OnlyTrace-After {ℓ} :
    {A : Type ℓ} (holds : Hub → Type 0) (h : Hub) (s : AgentWs.Step A)
    → ((ts : List Effect) → holds (record h { trace = ts }))
    → OnlyTrace h s
    → After holds s
OnlyTrace-After holds h (stop h') any (ts, e) = subst holds (sym e) (any ts)
OnlyTrace-After holds h (continue a h') any (ts, e) = subst holds (sym e) (any ts)

pub check_agent_request-OnlyTrace : (r : Request) (h : Hub) → OnlyTrace h (check_agent_request r h)
unfolding check_agent_request
check_agent_request-OnlyTrace r h = elim (Bool-cases (r.x_agent == [])) [
  | inl e ↦ rw (e, check_agent_request) (_, refl)
  | inr e ↦ elim (Bool-cases (authorized h.cfg r.authorization)) [
    | inr f ↦ rw (e, f, check_agent_request) (_, refl)
    | inl f ↦ rw (e, f, check_agent_request) (_, refl)
  ]
]

pub check_tunnel_request-OnlyTrace :
    (r : Request) (h : Hub) → OnlyTrace h (check_tunnel_request r h)
unfolding check_tunnel_request
check_tunnel_request-OnlyTrace r h = elim (Bool-cases (r.x_agent == [])) [
  | inl e ↦ rw (e, check_tunnel_request) (_, refl)
  | inr e ↦ elim (Bool-cases (authorized h.cfg r.authorization)) [
    | inr f ↦ rw (e, f, check_tunnel_request) (_, refl)
    | inl f ↦ elim (Option-cases (lookup r.x_agent h.agents)) [
      | inl g ↦ rw (e, f, g, check_tunnel_request) (_, refl)
      | inr (a, g) ↦ rw (e, f, g, check_tunnel_request) (_, refl)
    ]
  ]
]

session_of_frame-OnlyTrace :
    (ws : Conn) (read : ReadResult) (h : Hub) → OnlyTrace h (session_of_frame ws read h)
unfolding session_of_frame
session_of_frame-OnlyTrace ws read_failed h = (_, refl)
session_of_frame-OnlyTrace ws (frame text payload) h = (_, refl)
session_of_frame-OnlyTrace ws (frame binary payload) h =
    elim (Bool-cases (length payload == handshake_size)) [
      | inl e ↦ rw (e, session_of_frame) (_, refl)
      | inr e ↦ rw (e, session_of_frame) (_, refl)
    ]

pub session_of_request-OnlyTrace :
    (sum256 : Str → Str) (r : Request) (ws : Conn) (read : ReadResult) (h : Hub)
    → OnlyTrace h (session_of_request sum256 r ws read h)
unfolding session_of_request session_of_header
session_of_request-OnlyTrace sum256 r ws read h = elim (Bool-cases (r.x_session == [])) [
  | inl e ↦ rw (e, session_of_request) (session_of_frame-OnlyTrace ws read h)
  | inr e ↦ elim (Option-cases (read_handshake sum256 read r.x_session)) [
    | inl f ↦ rw (e, f, session_of_request, session_of_header) (_, refl)
    | inr (problem, f) ↦ rw (e, f, session_of_request, session_of_header) (_, refl)
  ]
]
