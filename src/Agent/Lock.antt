-- ===== src/Agent/Lock.antt =====
-- pkg/agent/lock.go, lock_unix.go and lock_windows.go: one agent for each home directory. What the
-- system calls answer is an argument.
pub mod Processes
pub mod Exclusive
use sshole.Base.{Bool, true, false, ◌||◌, if◌then◌else◌, not}

-- `flock(fd, LOCK_EX|LOCK_NB)`, and `LockFileEx` with its two errors for a lock that is held.
pub data LockCall : Type 0 where
  granted would_block call_failed : LockCall
  lock_violation io_pending : LockCall

pub data Acquired : Type 0 where
  holds_lock err_already_running err_failed : Acquired

abbrev is_would_block : LockCall → Bool
is_would_block would_block = true
is_would_block _ = false

abbrev is_violation : LockCall → Bool
is_violation lock_violation = true
is_violation _ = false

abbrev is_pending : LockCall → Bool
is_pending io_pending = true
is_pending _ = false

abbrev is_granted : LockCall → Bool
is_granted granted = true
is_granted _ = false

unfoldable pub acquire_file_lock_unix : Bool → LockCall → Acquired
acquire_file_lock_unix opened call =
    if not opened
    then err_failed
    else if is_granted call
    then holds_lock
    else if is_would_block call
    then err_already_running
    else err_failed

unfoldable pub acquire_file_lock_windows : Bool → LockCall → Acquired
acquire_file_lock_windows opened call =
    if not opened
    then err_failed
    else if is_granted call
    then holds_lock
    else if is_violation call || is_pending call
    then err_already_running
    else err_failed

unfoldable pub acquire_instance_lock : Bool → Bool → Acquired → Acquired
acquire_instance_lock home_known directory_made lock =
    if not home_known then err_failed else if not directory_made then err_failed else lock
