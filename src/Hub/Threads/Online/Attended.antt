-- ===== src/Hub/Threads/Online/Attended.antt =====
-- However the goroutines are interleaved, every agent that is online is attended to.
use sshole.Base.{
  false, ap, sym, ◌∙◌, ◌≡◌, refl, inl, inr, subst, true, ◌||◌, none, some, List, [], ◌∷◌, ◌++◌, Str,
  arith, str_eq, nat_eq,
}
use sshole.Hub.State.{panicked, Conn, Hub}
use sshole.Hub.Rpc.{online_control}
use sshole.Hub.Steps.Invariant.{IsWellFormed}
use sshole.Hub.Threads.{Thread, ssh, watch, tunnel, wait, agent, key, copies, serves, Input}
use sshole.Hub.Threads.Ssh.{advance_ssh, advance_watch}
use sshole.Hub.Threads.Tunnel.{advance_tunnel, advance_wait, advance_copies}
use sshole.Hub.Threads.Agent.{advance_serves, advance_key}
use sshole.Hub.Threads.System.{
  System, advance, SystemStep, runs, recovers, arrives, SystemReach, here, next,
}
use sshole.Hub.Threads.Interleaving.{IsSound, SystemReach-IsSound, All-split}
use sshole.Hub.Threads.Valid.{IsValid}
use sshole.Hub.Threads.Panics.{panics, crashes}
use sshole.Hub.Threads.Crash.{panics-advance}
use sshole.Hub.Threads.Online.{attends, any_attends, Attends}
use sshole.Hub.Threads.Online.Keeps.{
  Attends-Keeps, advance_ssh-Keeps, advance_watch-Keeps, advance_wait-Keeps, advance_copies-Keeps,
  advance_serves-Keeps, advance_key-Keeps,
}
use sshole.Hub.Threads.Online.KeepsTunnel.{advance_tunnel-Keeps}
use sshole.Hub.Threads.Online.Control.{advance_agent-Attends}

-- Each agent that is online has a goroutine that attends to its connection.
abbrev pub IsAttended : System → Type 0
IsAttended s =
    (name : Str) (ws : Conn)
    → online_control name s.hub ≡ some ws
    → any_attends name ws s.threads ≡ true

crashes-attends :
    (t : Thread) (h : Hub) (name : Str) (ws : Conn) → crashes t h ≡ true → attends name ws t ≡ false
crashes-attends (ssh p) h name ws e = refl
crashes-attends (watch p) h name ws e = refl
crashes-attends (tunnel p) h name ws e = refl
crashes-attends (wait p) h name ws e = refl
crashes-attends (agent p) h name ws e = absurd (ground (arith, e))
crashes-attends (key p) h name ws e = refl
crashes-attends (copies f) h name ws e = refl
crashes-attends (serves n) h name ws e = refl

any_attends-append :
    (name : Str) (ws : Conn) (xs ys : List Thread)
    → any_attends name ws (xs ++ ys) ≡ (any_attends name ws xs || any_attends name ws ys)
any_attends-append name ws [] ys = refl
any_attends-append name ws (x ∷ xs) ys = ground (arith, any_attends-append name ws xs ys)

module _ (sum256 : Str → Str) where
  advance-Attends :
      (x : Input) (t : Thread) (h : Hub) → IsWellFormed h → Attends h t (advance sum256 x t h)
  unfolding advance
  advance-Attends x (ssh p) h w =
      Attends-Keeps ssh p h (advance_ssh x p h) (λ name ws. refl) (advance_ssh-Keeps x p h)
  advance-Attends x (watch p) h w =
      Attends-Keeps watch p h (advance_watch x p h) (λ name ws. refl) (advance_watch-Keeps x p h)
  advance-Attends x (tunnel p) h w =
      Attends-Keeps tunnel p h (advance_tunnel sum256 x p h) (λ name ws. refl)
        (advance_tunnel-Keeps sum256 x p h)
  advance-Attends x (wait p) h w =
      Attends-Keeps wait p h (advance_wait x p h) (λ name ws. refl) (advance_wait-Keeps x p h)
  advance-Attends x (agent p) h w = advance_agent-Attends x p h w
  advance-Attends x (key p) h w =
      Attends-Keeps key p h (advance_key x p h) (λ name ws. refl) (advance_key-Keeps x p h)
  advance-Attends x (copies f) h w =
      Attends-Keeps copies f h (advance_copies f h) (λ name ws. refl) (advance_copies-Keeps f h)
  advance-Attends x (serves n) h w =
      Attends-Keeps serves n h (advance_serves x n h) (λ name ws. refl) (advance_serves-Keeps x n h)

  -- A goroutine that attends to a connection does not dereference nil.
  panicked-attends :
      (x : Input) (t : Thread) (h : Hub)
      → advance sum256 x t h ≡ panicked
      → IsValid h t
      → (name : Str) (ws : Conn) → attends name ws t ≡ false
  panicked-attends x t h e v name ws =
      crashes-attends t h name ws (sym (panics-advance sum256 x t h v) ∙ ap panics e)

  SystemStep-IsAttended :
      {s s' : System} → SystemStep sum256 s s' → IsSound s → IsAttended s → IsAttended s'
  SystemStep-IsAttended (runs before after t ts x {h} {h'} e) (w, v) attended name ws online =
      elim (subst (Attends h t) e (advance-Attends x t h w) name ws online) [
        | inl taken ↦ ground (
          arith,
          any_attends-append name ws before (ts ++ after),
          any_attends-append name ws ts after,
        )
        | inr (before_too, not_here) ↦ ground (
          arith,
          attended name ws before_too,
          any_attends-append name ws before (ts ++ after),
          any_attends-append name ws ts after,
          any_attends-append name ws before (t ∷ after),
        )
      ]
  SystemStep-IsAttended (recovers before after t x {h} e handled) (w, v) attended name ws online =
      let valid = (All-split (IsValid h) before (t ∷ after) v).1.0 in
      ground (
        arith,
        attended name ws online,
        panicked-attends x t h e valid name ws,
        any_attends-append name ws before after,
        any_attends-append name ws before (t ∷ after),
      )
  SystemStep-IsAttended (arrives t e) sound attended name ws online =
      ground (arith, attended name ws online)

  SystemReach-IsAttended :
      {s s' : System} → SystemReach sum256 s s' → IsSound s → IsAttended s → IsAttended s'
  SystemReach-IsAttended here sound attended = attended
  SystemReach-IsAttended (next r step) sound attended =
      let (p, sound') = SystemReach-IsSound sum256 r sound in
      SystemStep-IsAttended step sound' (SystemReach-IsAttended r sound attended)

  -- From a sound state in which no agent is online, however the goroutines are interleaved: where
  -- an agent is online on a connection, a goroutine of handleAgentWS for this agent reads from the
  -- connection, or is about to take the agent offline.
  pub online_is_attended :
      {s s' : System}
      → SystemReach sum256 s s'
      → IsSound s
      → ((name : Str) → online_control name s.hub ≡ none)
      → (name : Str) (ws : Conn) → online_control name s'.hub ≡ some ws
      → any_attends name ws s'.threads ≡ true
  online_is_attended r sound offline =
      SystemReach-IsAttended r sound
        (λ name ws online. absurd (ground (arith, online, offline name)))
