-- ===== src/Hub/Threads/Care/Forgotten.antt =====
-- However the goroutines are interleaved, no session is forgotten.
use sshole.Base.{
  false, ◌≡◌, refl, inl, inr, subst, true, ◌||◌, List, [], ◌∷◌, ◌++◌, Str, arith, str_eq,
}
use sshole.Base.Dict.{lookup-nil}
use sshole.Hub.State.{Ref, Hub}
use sshole.Hub.Steps.Invariant.{IsWellFormed}
use sshole.Hub.Threads.{Thread, ssh, watch, tunnel, wait, agent, key, copies, serves, Input}
use sshole.Hub.Threads.System.{
  is_recovered, System, advance, SystemStep, runs, recovers, arrives, SystemReach, here, next,
}
use sshole.Hub.Threads.Valid.{IsValid}
use sshole.Hub.Threads.Interleaving.{IsSound, SystemReach-IsSound, All-split}
use sshole.Hub.Threads.Care.{cares, client_waits, Waits, any_cares}
use sshole.Hub.Threads.Care.Hands.{HandsOn, advance_ssh-HandsOn, advance_watch-HandsOn}
use sshole.Hub.Threads.Care.TunnelHands.{advance_tunnel-HandsOn}
use sshole.Hub.Threads.Care.OtherHands.{
  advance_wait-HandsOn, advance_copies-HandsOn, advance_serves-HandsOn, advance_key-HandsOn,
}
use sshole.Hub.Threads.Care.AgentHands.{advance_agent-HandsOn}

-- Each session that waits is in the hands of a goroutine.
abbrev pub IsCared : System → Type 0
IsCared s = (sid : Str) → Waits sid s.hub → any_cares sid s.threads ≡ true

-- The handlers that net/http recovers care for no client's session.
recovered-cares : (t : Thread) (sid : Str) → is_recovered t ≡ true → cares sid t ≡ false
recovered-cares (ssh p) sid e = absurd (ground (arith, e))
recovered-cares (watch p) sid e = absurd (ground (arith, e))
recovered-cares (tunnel p) sid e = refl
recovered-cares (wait p) sid e = refl
recovered-cares (agent p) sid e = refl
recovered-cares (key p) sid e = refl
recovered-cares (copies f) sid e = refl
recovered-cares (serves name) sid e = refl

any_cares-append :
    (sid : Str) (xs ys : List Thread)
    → any_cares sid (xs ++ ys) ≡ (any_cares sid xs || any_cares sid ys)
any_cares-append sid [] ys = refl
any_cares-append sid (x ∷ xs) ys = ground (arith, any_cares-append sid xs ys)

module _ (sum256 : Str → Str) where
  advance-HandsOn :
      (x : Input) (t : Thread) (h : Hub)
      → IsWellFormed h
      → IsValid h t
      → HandsOn h t (advance sum256 x t h)
  unfolding advance
  advance-HandsOn x (ssh p) h w v = advance_ssh-HandsOn x p h w v
  advance-HandsOn x (watch p) h w v = advance_watch-HandsOn x p h w
  advance-HandsOn x (tunnel p) h w v = advance_tunnel-HandsOn sum256 x p h w v
  advance-HandsOn x (wait p) h w v = advance_wait-HandsOn x p h w
  advance-HandsOn x (agent p) h w v = advance_agent-HandsOn x p h
  advance-HandsOn x (key p) h w v = advance_key-HandsOn x p h
  advance-HandsOn x (copies f) h w v = advance_copies-HandsOn f h w
  advance-HandsOn x (serves name) h w v = advance_serves-HandsOn x name h

  SystemStep-IsCared : {s s' : System} → SystemStep sum256 s s' → IsSound s → IsCared s → IsCared s'
  SystemStep-IsCared (runs before after t ts x {h} {h'} e) (w, v) cared sid waits =
      let at_rest = (All-split (IsValid h) before (t ∷ after) v).1 in
      elim (subst (HandsOn h t) e (advance-HandsOn x t h w at_rest.0) sid waits) [
        | inl taken ↦
            ground (arith, any_cares-append sid before (ts ++ after), any_cares-append sid ts after)
        | inr (before_too, not_here) ↦ ground (
          arith,
          cared sid before_too,
          any_cares-append sid before (ts ++ after),
          any_cares-append sid ts after,
          any_cares-append sid before (t ∷ after),
        )
      ]
  SystemStep-IsCared (recovers before after t x {h} e handled) sound cared sid waits = ground (
    arith,
    cared sid waits,
    recovered-cares t sid handled,
    any_cares-append sid before after,
    any_cares-append sid before (t ∷ after),
  )
  SystemStep-IsCared (arrives t e) v cared sid waits = ground (arith, cared sid waits)

  SystemReach-IsCared :
      {s s' : System} → SystemReach sum256 s s' → IsSound s → IsCared s → IsCared s'
  SystemReach-IsCared here sound cared = cared
  SystemReach-IsCared (next r step) sound cared =
      let (p, sound') = SystemReach-IsSound sum256 r sound in
      SystemStep-IsCared step sound' (SystemReach-IsCared r sound cared)

  -- From a sound state with no pending session, however the goroutines are interleaved and panics of
  -- handlers recovered, while the process runs: every pending session of an SSH client that is neither
  -- bound nor closed is in the hands of the goroutine of onSSHConn that is about to send OPEN or to drop
  -- it, or of one that watches it.
  pub no_session_forgotten :
      {s s' : System}
      → SystemReach sum256 s s'
      → IsSound s
      → s.hub.pending ≡ []
      → (sid : Str) → Waits sid s'.hub
      → any_cares sid s'.threads ≡ true
  unfolding client_waits
  no_session_forgotten {s} r sound empty =
      SystemReach-IsCared r sound
        (λ sid waits. absurd (ground (arith, empty, lookup-nil {V = Ref} sid)))
