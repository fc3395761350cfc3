-- ===== src/Hub/Start/Listeners.antt =====
-- startPortListeners opens what it should.
use mathlib.Core.List.{Memᴰ}
use sshole.Base.{
  ℕ, ◌≡◌, ap, subst, Option, none, some, [], ◌∷◌, Str, arith, str_eq, nat_eq, Option-cases, inl,
  inr, ℕ_discrete,
}
use sshole.Base.Dict.{Dict, lookup, insert, lookup-insert, lookup-cons, lookup-nil}
use sshole.Hub.State.{Conn, Hub, emit, go_serve_port}
use sshole.Hub.Start.{start_port_listeners, StartError}

-- The port is listened on, and the loop that accepts its connections for the agent was started.
abbrev pub IsServed : (ℕ → Option Conn) → ℕ → Str → Hub → Type 0
IsServed listen port agent h =
    (ln : Conn) × (listen port ≡ some ln)
    × (lookup port h.listeners ≡ some ln)
    × Memᴰ (go_serve_port port agent) h.trace

start_port_listeners-keeps :
    (listen : ℕ → Option Conn) (d : Dict ℕ Str) (h h' : Hub) (port : ℕ) (agent : Str)
    → start_port_listeners listen d h ≡ (none, h')
    → IsServed listen port agent h
    → IsServed listen port agent h'
unfolding start_port_listeners
start_port_listeners-keeps listen [] h h' port agent e (ln, opened, there, started) =
    subst (IsServed listen port agent) (ap (λ (p : Option StartError × Hub). p.1) e)
      (ln, opened, there, started)
start_port_listeners-keeps listen ((q, b) ∷ d) h h' port agent e (ln, opened, there, started) =
    elim (Option-cases (listen q)) [
      | inl refused ↦ absurd (ground arith)
      | inr (l, open_q) ↦
          let g : Hub =
            emit (go_serve_port q b) (record h { listeners = insert q l h.listeners }) in
          start_port_listeners-keeps listen d g h' port agent (ground arith)
            (ln, opened, ground (arith, lookup-insert port q l h.listeners), Memᴰ.tail started)
    ]

-- Where no listener is refused, every port of the map is served for its agent.
pub start_port_listeners-IsServed :
    (listen : ℕ → Option Conn) (d : Dict ℕ Str) (h h' : Hub) (port : ℕ) (agent : Str)
    → start_port_listeners listen d h ≡ (none, h')
    → lookup port d ≡ some agent
    → IsServed listen port agent h'
unfolding start_port_listeners
start_port_listeners-IsServed listen [] h h' port agent e found =
    absurd (ground (arith, lookup-nil {V = Str} port))
start_port_listeners-IsServed listen ((q, b) ∷ d) h h' port agent e found =
    elim (Option-cases (listen q)) [
      | inl refused ↦ absurd (ground arith)
      | inr (l, open_q) ↦
          let g : Hub =
            emit (go_serve_port q b) (record h { listeners = insert q l h.listeners }) in
          elim (ℕ_discrete port q) [
            | yes same ↦ start_port_listeners-keeps listen d g h' port agent (ground arith) (
              l,
              ground arith,
              ground (arith, lookup-insert port q l h.listeners),
              Memᴰ.head (ground (arith, lookup-cons port q b d)),
            )
            | no other ↦
                start_port_listeners-IsServed listen d g h' port agent (ground arith)
                  (ground (arith, lookup-cons port q b d))
          ]
    ]
