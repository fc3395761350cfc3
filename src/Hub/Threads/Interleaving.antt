-- ===== src/Hub/Threads/Interleaving.antt =====
-- However the goroutines are interleaved, the hub goes by steps.
use sshole.Base.{◌≡◌, subst, true, Option, none, some, List, [], ◌∷◌, ◌++◌, Str, arith, All}
use sshole.Hub.State.{Hub, Outcome, returned, panicked}
use sshole.Hub.Steps.{Reach, Reach-trans}
use sshole.Hub.Steps as Steps
use sshole.Hub.Steps.Invariant.{IsWellFormed, Reach-IsWellFormed}
use sshole.Hub.Threads.{
  Thread, ssh, watch, tunnel, wait, agent, key, copies, serves, Input, Moved, ssh_start, ssh_found,
  ssh_pending, ssh_unsent, ssh_sent, tunnel_start, tunnel_checked, tunnel_accepted, tunnel_named,
  join, bound_to, entry_found, entry_pending, entry_unsent, entry_sent, agent_start, agent_checked,
  agent_unknown, agent_added, agent_accepts, agent_attaches, agent_reads, agent_ends,
}
use sshole.Hub.Threads.System.{
  threads_of, as_threads, begins, System, advance, SystemStep, runs, recovers, arrives, SystemReach,
  here, next,
}
use sshole.Hub.Threads.Valid.{IsValid, IsValidSsh, IsValidTunnel, IsValidAgent, Reach-All}
use sshole.Hub.Threads.Moves.{
  IsValidPoint, MovesBySteps, Anywhere, advance_ssh-MovesBySteps, advance_watch-MovesBySteps,
}
use sshole.Hub.Threads.TunnelMoves.{
  advance_tunnel-MovesBySteps, advance_wait-MovesBySteps, advance_copies-MovesBySteps,
}
use sshole.Hub.Threads.AgentMoves.{
  advance_agent-MovesBySteps, advance_serves-MovesBySteps, advance_key-MovesBySteps,
}

abbrev ReachesValid : Hub → Outcome (Hub × List Thread) → Type 0
ReachesValid h panicked = Unit {0}
ReachesValid h (returned (h', ts)) = Reach h h' × All (IsValid h') ts

as_threads-ReachesValid :
    {P : Type 0} (of_point : P → Thread) (valid : Hub → P → Type 0) (h : Hub)
    (o : Outcome (Moved P))
    → ((h' : Hub) (p : P) → valid h' p → IsValid h' (of_point p))
    → MovesBySteps valid h o
    → ReachesValid h (as_threads of_point o)
as_threads-ReachesValid of_point valid h panicked sound v = tt
as_threads-ReachesValid {P = P} of_point valid h (returned m) sound (p, at_point, started) =
    (p, go m.point at_point)
  where
    go :
        (point : Option P)
        → IsValidPoint (valid m.hub) point
        → All (IsValid m.hub) (threads_of of_point point m.spawned)
    go none v = started
    go (some q) v = (sound m.hub q v, started)

All-append : {A : Type 0} (P : A → Type 0) (xs ys : List A) → All P xs → All P ys → All P (xs ++ ys)
All-append P [] ys u v = v
All-append P (x ∷ xs) ys u v = (u.0, All-append P xs ys u.1 v)

pub All-split :
    {A : Type 0} (P : A → Type 0) (xs ys : List A) → All P (xs ++ ys) → All P xs × All P ys
All-split P [] ys u = (tt, u)
All-split P (x ∷ xs) ys u = let (before, after) = All-split P xs ys u.1 in ((u.0, before), after)

begins-IsValid : (h : Hub) (t : Thread) → begins t ≡ true → IsValid h t
begins-IsValid h (ssh (ssh_start name conn)) e = tt
begins-IsValid h (ssh (ssh_found name conn a)) e = tt
begins-IsValid h (ssh (ssh_pending sid r a)) e = absurd (ground arith)
begins-IsValid h (ssh (ssh_unsent sid)) e = tt
begins-IsValid h (ssh (ssh_sent sid r)) e = absurd (ground arith)
begins-IsValid h (watch p) e = tt
begins-IsValid h (wait p) e = tt
begins-IsValid h (copies p) e = tt
begins-IsValid h (tunnel (tunnel_start request)) e = tt
begins-IsValid h (tunnel (tunnel_checked request a)) e = tt
begins-IsValid h (tunnel (tunnel_accepted request a ws)) e = tt
begins-IsValid h (tunnel (tunnel_named name sid ws a)) e = tt
begins-IsValid h (tunnel (join name sid ws r)) e = absurd (ground arith)
begins-IsValid h (tunnel (bound_to name ws r)) e = absurd (ground arith)
begins-IsValid h (tunnel (entry_found name sid ws a)) e = tt
begins-IsValid h (tunnel (entry_pending sid ws r a)) e = absurd (ground arith)
begins-IsValid h (tunnel (entry_unsent sid ws)) e = tt
begins-IsValid h (tunnel (entry_sent sid ws r)) e = absurd (ground arith)
begins-IsValid h (agent (agent_start request)) e = tt
begins-IsValid h (agent (agent_checked name)) e = tt
begins-IsValid h (agent (agent_unknown name)) e = tt
begins-IsValid h (agent (agent_added name port)) e = absurd (ground arith)
begins-IsValid h (agent (agent_accepts name)) e = absurd (ground arith)
begins-IsValid h (agent (agent_attaches name ws)) e = absurd (ground arith)
begins-IsValid h (agent (agent_reads name ws)) e = absurd (ground arith)
begins-IsValid h (agent (agent_ends name ws)) e = absurd (ground arith)
begins-IsValid h (key p) e = tt
begins-IsValid h (serves p) e = tt

-- The hub is well-formed, and the locals of every goroutine are valid.
abbrev pub IsSound : System → Type 0
IsSound s = IsWellFormed s.hub × All (IsValid s.hub) s.threads

module _ (sum256 : Str → Str) where
  advance-ReachesValid :
      (x : Input) (t : Thread) (h : Hub)
      → IsWellFormed h
      → IsValid h t
      → ReachesValid h (advance sum256 x t h)
  unfolding advance
  advance-ReachesValid x (ssh p) h w v =
      as_threads-ReachesValid ssh IsValidSsh h _ (λ h' q u. u) (advance_ssh-MovesBySteps x p h v)
  advance-ReachesValid x (watch p) h w v =
      as_threads-ReachesValid watch Anywhere h _ (λ h' q u. tt) (advance_watch-MovesBySteps x p h)
  advance-ReachesValid x (tunnel p) h w v =
      as_threads-ReachesValid tunnel IsValidTunnel h _ (λ h' q u. u)
        (advance_tunnel-MovesBySteps sum256 x p h w v)
  advance-ReachesValid x (wait p) h w v =
      as_threads-ReachesValid wait Anywhere h _ (λ h' q u. tt) (advance_wait-MovesBySteps x p h)
  advance-ReachesValid x (agent p) h w v =
      as_threads-ReachesValid agent IsValidAgent h _ (λ h' q u. u)
        (advance_agent-MovesBySteps x p h v)
  advance-ReachesValid x (key p) h w v =
      as_threads-ReachesValid key Anywhere h _ (λ h' q u. tt) (advance_key-MovesBySteps x p h)
  advance-ReachesValid x (copies f) h w v =
      as_threads-ReachesValid copies Anywhere h _ (λ h' q u. tt) (advance_copies-MovesBySteps f h)
  advance-ReachesValid x (serves name) h w v =
      as_threads-ReachesValid serves Anywhere h _ (λ h' q u. tt)
        (advance_serves-MovesBySteps x name h)

  SystemStep-IsSound :
      {s s' : System} → SystemStep sum256 s s' → IsSound s → Reach s.hub s'.hub × IsSound s'
  SystemStep-IsSound (runs before after t ts x {h} {h'} e) (w, v) =
      let (at_before, at_rest) = All-split (IsValid h) before (t ∷ after) v in
      let (p, started) = moved (advance sum256 x t h) e (advance-ReachesValid x t h w at_rest.0) in
      (
        p,
        (
          Reach-IsWellFormed p w,
          All-append (IsValid h') before (ts ++ after) (Reach-All before p at_before)
              (All-append (IsValid h') ts after started (Reach-All after p at_rest.1)),
        ),
      )
    where
      moved :
          (o : Outcome (Hub × List Thread))
          → o ≡ returned (h', ts)
          → ReachesValid h o
          → Reach h h' × All (IsValid h') ts
      moved o e u = subst (ReachesValid h) e u
  SystemStep-IsSound (recovers before after t x {h} e handled) (w, v) =
      let (at_before, at_rest) = All-split (IsValid h) before (t ∷ after) v in
      (Steps.here, (w, All-append (IsValid h) before after at_before at_rest.1))
  SystemStep-IsSound {s} (arrives t e) (w, v) = (Steps.here, (w, (begins-IsValid s.hub t e, v)))

  -- However the goroutines are interleaved, and whatever the environment answers and starts, the hub
  -- goes by steps of the step relation, stays well-formed, and every goroutine's locals stay valid.
  pub SystemReach-IsSound :
      {s s' : System} → SystemReach sum256 s s' → IsSound s → Reach s.hub s'.hub × IsSound s'
  SystemReach-IsSound here v = (Steps.here, v)
  SystemReach-IsSound (next r step) v =
      let (p, v') = SystemReach-IsSound r v in
      let (q, v'') = SystemStep-IsSound step v' in (Reach-trans p q, v'')
