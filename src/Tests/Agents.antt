-- ===== src/Tests/Agents.antt =====
-- Two agents under one home directory, over a lock that is the open file that holds it.
use sshole.Base.{
  ℕ, ◌≡◌, ◌≢◌, ◌⊎◌, refl, Option, none, some, [], ◌∷◌, arith, ℕ_discrete, nat_eq, ◌==◌,
  if◌then◌else◌,
}
use sshole.Agent.Lock.{LockCall, granted, would_block, err_already_running, acquire_file_lock_unix}
use sshole.Agent.Lock.Processes.{OsLock, unix, acquire_lock, release_lock}
use sshole.Agent.Lock.Exclusive.{
  Agents, start_agent, AgentReach, here, next, starts, killed, at_most_one_agent,
}

abbrev flock : ℕ → Option ℕ → LockCall × Option ℕ
flock f none = (granted, some f)
flock f (some g) = (if g == f then granted else would_block, some g)

abbrev drop_lock : ℕ → Option ℕ → Option ℕ
drop_lock f none = none
drop_lock f (some g) = if g == f then none else some g

flock_granted : (f : ℕ) (s : Option ℕ) → (flock f s).0 ≡ granted → (flock f s).1 ≡ some f
flock_granted f none e = refl
flock_granted f (some g) e = ground arith

flock_refused : (f : ℕ) (s : Option ℕ) → (flock f s).0 ≢ granted → (flock f s).1 ≡ s
flock_refused f none e = absurd (e refl)
flock_refused f (some g) e = refl

flock_held : (f g : ℕ) (s : Option ℕ) → s ≡ some g → g ≢ f → (flock f s).0 ≡ would_block
flock_held f g none e other = absurd (ground arith)
flock_held f g (some k) e other = ground arith

drop_lock_own : (f : ℕ) (s : Option ℕ) → s ≡ some f → drop_lock f s ≡ none
drop_lock_own f none e = refl
drop_lock_own f (some g) e = ground arith

drop_lock_other : (f : ℕ) (s : Option ℕ) → s ≢ some f → drop_lock f s ≡ s
drop_lock_other f none e = refl
drop_lock_other f (some g) e = ground arith

abbrev one_lock : OsLock (Option ℕ) unix
one_lock = record {
  holder = λ s. s;
  lock = flock;
  unlock = drop_lock;
  close = drop_lock;
  lock_granted = flock_granted;
  lock_refused = flock_refused;
  lock_held = flock_held;
  unlock_own = drop_lock_own;
  close_own = drop_lock_own;
  close_other = drop_lock_other;
}

abbrev no_agents : Agents (Option ℕ)
no_agents = record { state = none; running = []; next_file = 0 }

abbrev last_runs : Agents (Option ℕ)
last_runs = record { state = some 2; running = 2 ∷ []; next_file = 3 }

-- The first agent runs, the second is refused, the first is killed, and the third runs.
last_runs-AgentReach : AgentReach one_lock no_agents last_runs
unfolding start_agent acquire_lock acquire_file_lock_unix ℕ_discrete
last_runs-AgentReach = next (next (next (next here starts) starts) (killed [] [] 0 refl)) starts

at_most_one_agent_example :
    (last_runs.running ≡ [])
    ⊎ ((f : ℕ) × (last_runs.running ≡ f ∷ [])
        × ((acquire_lock one_lock 3 (some 2)).0 ≡ err_already_running)
        × ((start_agent one_lock last_runs).running ≡ f ∷ [])
        × (release_lock one_lock f (some 2) ≡ none)
        × (drop_lock f (some 2) ≡ none))
at_most_one_agent_example =
    at_most_one_agent one_lock last_runs-AgentReach refl (λ g e. absurd (ground (arith, e)))
