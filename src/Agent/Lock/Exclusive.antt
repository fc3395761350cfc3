-- ===== src/Agent/Lock/Exclusive.antt =====
-- At most one agent runs under a home directory.
use sshole.Base.{
  ℕ, ap, ◌+◌, ◌<◌, ◌≡◌, refl, ◌≢◌, ◌⊎◌, inl, inr, sym, ◌∙◌, true, false, none, some, List, [], ◌∷◌,
  ◌++◌, arith, if◌then◌else◌, nat_eq,
}
use sshole.Agent.Lock.{
  LockCall, granted, would_block, call_failed, lock_violation, io_pending, holds_lock,
  err_already_running, acquire_file_lock_unix, acquire_file_lock_windows,
}
use sshole.Agent.Lock.Processes.{
  Platform, unix, windows, acquire_file_lock, held_call, OsLock, holds, acquire_lock, release_lock,
}

-- The operating system's state, the open files of the agents that got the lock and have not ended, and
-- the next open file.
pub record Agents (S : Type 0) : Type 0 where
  pub state : S
  pub running : List ℕ
  pub next_file : ℕ

answer_cases :
    (p : Platform) (call : LockCall)
    → ((call ≡ granted) × (acquire_file_lock p true call ≡ holds_lock))
      ⊎ ((call ≢ granted) × (holds (acquire_file_lock p true call) ≡ false))
unfolding acquire_file_lock_unix acquire_file_lock_windows
answer_cases unix granted = inl (refl, refl)
answer_cases unix would_block = inr ((λ e. ground arith), refl)
answer_cases unix call_failed = inr ((λ e. ground arith), refl)
answer_cases unix lock_violation = inr ((λ e. ground arith), refl)
answer_cases unix io_pending = inr ((λ e. ground arith), refl)
answer_cases windows granted = inl (refl, refl)
answer_cases windows would_block = inr ((λ e. ground arith), refl)
answer_cases windows call_failed = inr ((λ e. ground arith), refl)
answer_cases windows lock_violation = inr ((λ e. ground arith), refl)
answer_cases windows io_pending = inr ((λ e. ground arith), refl)

held_answer : (p : Platform) → acquire_file_lock p true (held_call p) ≡ err_already_running
unfolding acquire_file_lock_unix acquire_file_lock_windows
held_answer unix = refl
held_answer windows = refl

singleton :
    (before after : List ℕ) (f g : ℕ)
    → before ++ (f ∷ after) ≡ g ∷ []
    → (f ≡ g) × (before ++ after ≡ [])
singleton [] after f g e = (ground (arith, e), ground (arith, e))
singleton (x ∷ []) after f g e = absurd (ground (arith, e))
singleton (x ∷ y ∷ before) after f g e = absurd (ground (arith, e))

module _ {S : Type 0} {p : Platform} (os : OsLock S p) where
  -- A new process runs main up to AcquireInstanceLock, whose other steps succeed.
  unfoldable pub start_agent : Agents S → Agents S
  start_agent m =
      let (answer, s) = acquire_lock os m.next_file m.state in
      record {
        state = s;
        running = if holds answer then m.next_file ∷ m.running else m.running;
        next_file = m.next_file + 1;
      }

  -- An agent whose file is `f` ends by `release_lock`, or is killed, and the system closes its file.
  pub data AgentStep : Agents S → Agents S → Type 0 where
    starts : {m : Agents S} → AgentStep m (start_agent m)
    stops :
        {m : Agents S} (before after : List ℕ) (f : ℕ)
        → m.running ≡ before ++ (f ∷ after)
        → AgentStep m (record m { state = release_lock os f m.state; running = before ++ after })
    killed :
        {m : Agents S} (before after : List ℕ) (f : ℕ)
        → m.running ≡ before ++ (f ∷ after)
        → AgentStep m (record m { state = os.close f m.state; running = before ++ after })

  pub data AgentReach (m : Agents S) : Agents S → Type 0 where
    here : AgentReach m m
    next : {m' m'' : Agents S} → AgentReach m m' → AgentStep m' m'' → AgentReach m m''

  -- No agent runs, and the lock is not of a file that will be opened; or one runs, and holds it.
  abbrev pub IsExclusive : Agents S → Type 0
  IsExclusive m =
      ((m.running ≡ []) × ((g : ℕ) → os.holder m.state ≡ some g → g < m.next_file))
      ⊎ ((f : ℕ) × ((m.running ≡ f ∷ []) × (os.holder m.state ≡ some f) × (f < m.next_file)))

  acquire_lock_cases :
      (f : ℕ) (s : S)
      → os.holder s ≢ some f
      → ((holds (acquire_lock os f s).0 ≡ true) × (os.holder (acquire_lock os f s).1 ≡ some f))
        ⊎ ((holds (acquire_lock os f s).0 ≡ false)
            × (os.holder (acquire_lock os f s).1 ≡ os.holder s))
  unfolding acquire_lock
  acquire_lock_cases f s other = elim (answer_cases p (os.lock f s).0) [
    | inl (e, answer) ↦ inl (rw (answer, acquire_lock) (refl, os.lock_granted f s e))
    | inr (e, answer) ↦
        let kept = os.lock_refused f s e in
        inr (
          rw (answer, acquire_lock)
            (refl, os.close_other f (os.lock f s).1 (λ own. other (sym kept ∙ own)) ∙ kept))
  ]

  -- A second agent is told that the first one runs, and leaves the lock as it is.
  acquire_lock_held :
      (f g : ℕ) (s : S)
      → os.holder s ≡ some g
      → g ≢ f
      → ((acquire_lock os f s).0 ≡ err_already_running)
        × (os.holder (acquire_lock os f s).1 ≡ some g)
  unfolding acquire_lock
  acquire_lock_held f g s held other =
      let answer = ap (acquire_file_lock p true) (os.lock_held f g s held other) ∙ held_answer p in
      elim (acquire_lock_cases f s (λ own. other (ground (arith, held, own)))) [
        | inl (got, _) ↦ absurd (ground (arith, got, ap holds answer))
        | inr (_, kept) ↦ (answer, kept ∙ held)
      ]

  release_lock_own : (f : ℕ) (s : S) → os.holder s ≡ some f → os.holder (release_lock os f s) ≡ none
  unfolding release_lock
  release_lock_own f s own =
      let freed = os.unlock_own f s own in
      os.close_other f (os.unlock f s) (λ e. ground (arith, freed, e)) ∙ freed

  start_agent-IsExclusive : (m : Agents S) → IsExclusive m → IsExclusive (start_agent m)
  unfolding start_agent
  start_agent-IsExclusive m (inl (alone, fresh)) =
      elim (acquire_lock_cases m.next_file m.state (λ e. omega (arith, fresh m.next_file e))) [
        | inl (got, own) ↦ inr (m.next_file, (rw (got, alone) refl, own, omega arith))
        | inr (refused, kept) ↦
            inl (rw (refused, alone) refl, λ g e. omega (arith, fresh g (sym kept ∙ e)))
      ]
  start_agent-IsExclusive m (inr (f, (alone, own, below))) =
      let other : f ≢ m.next_file = (λ e. omega (arith, e, below)) in
      let (answer, kept) = acquire_lock_held m.next_file f m.state own other in
      inr (f, (rw (answer, alone) refl, kept, omega (arith, below)))

  ended-IsExclusive :
      (m : Agents S) (before after : List ℕ) (f : ℕ) (s : S)
      → m.running ≡ before ++ (f ∷ after)
      → (os.holder m.state ≡ some f → os.holder s ≡ none)
      → IsExclusive m
      → IsExclusive (record m { state = s; running = before ++ after })
  ended-IsExclusive m before after f s e freed (inl (none_runs, fresh)) =
      absurd (nonempty before (sym e ∙ none_runs))
    where
      nonempty : (xs : List ℕ) → xs ++ (f ∷ after) ≢ []
      nonempty [] = (λ n. ground (arith, n))
      nonempty (x ∷ xs) = (λ n. ground (arith, n))
  ended-IsExclusive m before after f s e freed (inr (g, (alone, own, below))) =
      let (same, rest) = singleton before after f g (sym e ∙ alone) in
      let gone = freed (own ∙ ap (λ k. some k) (sym same)) in
      inl (rest, λ k held. absurd (ground (arith, gone, held)))

  AgentStep-IsExclusive : {m m' : Agents S} → AgentStep m m' → IsExclusive m → IsExclusive m'
  AgentStep-IsExclusive {m} starts v = start_agent-IsExclusive m v
  AgentStep-IsExclusive {m} (stops before after f e) v =
      ended-IsExclusive m before after f (release_lock os f m.state) e (release_lock_own f m.state)
        v
  AgentStep-IsExclusive {m} (killed before after f e) v =
      ended-IsExclusive m before after f (os.close f m.state) e (os.close_own f m.state) v

  AgentReach-IsExclusive : {m m' : Agents S} → AgentReach m m' → IsExclusive m → IsExclusive m'
  AgentReach-IsExclusive here v = v
  AgentReach-IsExclusive (next r step) v = AgentStep-IsExclusive step (AgentReach-IsExclusive r v)

  -- Whatever agents are started, stopped and killed, where none ran at first and no file to come held the
  -- lock: at most one of them runs at a time, and where one runs, the next one that starts is told so
  -- with ErrAlreadyRunning and does not run, and the lock is free once the one that runs releases it or is
  -- killed.
  pub at_most_one_agent :
      {m m' : Agents S}
      → AgentReach m m'
      → m.running ≡ []
      → ((g : ℕ) → os.holder m.state ≡ some g → g < m.next_file)
      → (m'.running ≡ [])
        ⊎ ((f : ℕ) × (m'.running ≡ f ∷ [])
            × ((acquire_lock os m'.next_file m'.state).0 ≡ err_already_running)
            × ((start_agent m').running ≡ f ∷ [])
            × (os.holder (release_lock os f m'.state) ≡ none)
            × (os.holder (os.close f m'.state) ≡ none))
  unfolding start_agent
  at_most_one_agent {m' = m'} r none_runs fresh =
      elim (AgentReach-IsExclusive r (inl (none_runs, fresh))) [
        | inl (alone, _) ↦ inl alone
        | inr (f, (alone, own, below)) ↦
            let other : f ≢ m'.next_file = (λ e. omega (arith, e, below)) in
            let (answer, kept) = acquire_lock_held m'.next_file f m'.state own other in
            inr (
              f,
              alone,
              answer,
              rw (answer, alone) refl,
              release_lock_own f m'.state own,
              os.close_own f m'.state own,
            )
      ]
