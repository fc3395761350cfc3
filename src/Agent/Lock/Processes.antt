-- ===== src/Agent/Lock/Processes.antt =====
-- Several agents under one home directory, over the operating system's lock on agent.lock.
use sshole.Base.{ℕ, ◌≡◌, ◌≢◌, Bool, true, false, Option, none, some, if◌then◌else◌, nat_eq}
use sshole.Agent.Lock.{
  LockCall, granted, would_block, lock_violation, Acquired, holds_lock, acquire_file_lock_unix,
  acquire_file_lock_windows,
}

pub data Platform : Type 0 where
  unix windows : Platform

-- lock_unix.go or lock_windows.go, by the build tags.
abbrev pub acquire_file_lock : Platform → Bool → LockCall → Acquired
acquire_file_lock unix = acquire_file_lock_unix
acquire_file_lock windows = acquire_file_lock_windows

-- What the system call answers where another open file holds the lock.
abbrev pub held_call : Platform → LockCall
held_call unix = would_block
held_call windows = lock_violation

-- The operating system's locks on one file, as its documentation has them. An open file is a number, and
-- the lock belongs to the open file. `lock` asks for it without waiting, and may fail otherwise.
pub record OsLock (S : Type 0) (p : Platform) : Type 0 where
  pub holder : S → Option ℕ
  pub lock : ℕ → S → LockCall × S
  pub unlock : ℕ → S → S
  pub close : ℕ → S → S
  pub lock_granted : (f : ℕ) (s : S) → (lock f s).0 ≡ granted → holder (lock f s).1 ≡ some f
  pub lock_refused : (f : ℕ) (s : S) → (lock f s).0 ≢ granted → holder (lock f s).1 ≡ holder s
  pub lock_held : (f g : ℕ) (s : S) → holder s ≡ some g → g ≢ f → (lock f s).0 ≡ held_call p
  pub unlock_own : (f : ℕ) (s : S) → holder s ≡ some f → holder (unlock f s) ≡ none
  pub close_own : (f : ℕ) (s : S) → holder s ≡ some f → holder (close f s) ≡ none
  pub close_other : (f : ℕ) (s : S) → holder s ≢ some f → holder (close f s) ≡ holder s

abbrev pub holds : Acquired → Bool
holds holds_lock = true
holds _ = false

module _ {S : Type 0} {p : Platform} (os : OsLock S p) where
  -- acquireFileLock on the open file `f`, which it closes where it does not get the lock.
  unfoldable pub acquire_lock : ℕ → S → Acquired × S
  acquire_lock f s =
      let (call, s₁) = os.lock f s in
      let answer = acquire_file_lock p true call in
      (answer, if holds answer then s₁ else os.close f s₁)

  -- The function that acquireFileLock returns.
  unfoldable pub release_lock : ℕ → S → S
  release_lock f s = os.close f (os.unlock f s)
