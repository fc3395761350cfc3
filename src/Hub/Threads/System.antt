-- ===== src/Hub/Threads/System.antt =====
-- Any number of goroutines over one hub, interleaved in any order.
use sshole.Base.{◌≡◌, Bool, true, false, Option, none, some, List, ◌∷◌, ◌++◌, Str}
use sshole.Hub.State.{Hub, Outcome, returned, panicked}
use sshole.Hub.Threads.{
  Thread, ssh, watch, tunnel, wait, agent, key, copies, serves, Input, Moved, tunnel_start,
  agent_start, key_start,
}
use sshole.Hub.Threads.Ssh.{advance_ssh, advance_watch}
use sshole.Hub.Threads.Tunnel.{advance_tunnel, advance_wait, advance_copies}
use sshole.Hub.Threads.Agent.{advance_agent, advance_serves, advance_key}

abbrev pub threads_of : {P : Type 0} → (P → Thread) → Option P → List Thread → List Thread
threads_of of_point none ts = ts
threads_of of_point (some p) ts = of_point p ∷ ts

abbrev pub as_threads :
    {P : Type 0} → (P → Thread) → Outcome (Moved P) → Outcome (Hub × List Thread)
as_threads of_point panicked = panicked
as_threads of_point (returned m) = returned (m.hub, threads_of of_point m.point m.spawned)

-- The goroutines that the environment starts: a request's handler, and servePort at the start.
abbrev pub begins : Thread → Bool
begins (tunnel (tunnel_start _)) = true
begins (agent (agent_start _)) = true
begins (key (key_start _)) = true
begins (serves _) = true
begins _ = false

-- The goroutines of net/http, which recovers a panic of a request's handler and ends the goroutine. A
-- panic of any other one ends the process, so nothing follows it.
abbrev pub is_recovered : Thread → Bool
is_recovered (tunnel _) = true
is_recovered (agent _) = true
is_recovered (key _) = true
is_recovered _ = false

pub record System : Type 0 where
  pub hub : Hub
  pub threads : List Thread

module _ (sum256 : Str → Str) where
  -- One stretch of a goroutine: the hub, and what the goroutine is replaced by.
  unfoldable pub advance : Input → Thread → Hub → Outcome (Hub × List Thread)
  advance x (ssh p) h = as_threads ssh (advance_ssh x p h)
  advance x (watch p) h = as_threads watch (advance_watch x p h)
  advance x (tunnel p) h = as_threads tunnel (advance_tunnel sum256 x p h)
  advance x (wait p) h = as_threads wait (advance_wait x p h)
  advance x (agent p) h = as_threads agent (advance_agent x p h)
  advance x (key p) h = as_threads key (advance_key x p h)
  advance x (copies f) h = as_threads copies (advance_copies f h)
  advance x (serves name) h = as_threads serves (advance_serves x name h)

  pub data SystemStep : System → System → Type 0 where
    runs :
        (before after : List Thread) (t : Thread) (ts : List Thread) (x : Input) {h h' : Hub}
        → advance x t h ≡ returned (h', ts)
        → SystemStep
            (record { hub = h; threads = before ++ (t ∷ after) })
            (record { hub = h'; threads = before ++ (ts ++ after) })
    recovers :
        (before after : List Thread) (t : Thread) (x : Input) {h : Hub}
        → advance x t h ≡ panicked
        → is_recovered t ≡ true
        → SystemStep
            (record { hub = h; threads = before ++ (t ∷ after) })
            (record { hub = h; threads = before ++ after })
    arrives :
        {s : System} (t : Thread)
        → begins t ≡ true
        → SystemStep s (record { hub = s.hub; threads = t ∷ s.threads })

  pub data SystemReach (s : System) : System → Type 0 where
    here : SystemReach s s
    next : {s' s'' : System} → SystemReach s s' → SystemStep s' s'' → SystemReach s s''
