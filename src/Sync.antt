-- ===== src/Sync.antt =====
-- The semaphore and the spin lock: src/process/sync.h, `Semaphore` and `SpinLock`. A call that waits is
-- `none` in a state in which it does not get through; each call is one step, under the mutex of the
-- semaphore or by the atomic exchange of the lock. The count is not negative at the start.
pub mod Permits
pub mod Exclusion
mod Tests
use os_course_design.Prelude.{
  ℕ, ◌+◌, ◌-◌, Bool, true, false, not, Option, none, some, ltb, if◌then◌else◌,
}

pub record Semaphore : Type 0 where
  pub count : ℕ

-- `condition_.wait` lets the call through once the count is positive.
unfoldable pub acquire : Semaphore → Option Semaphore
acquire s = if ltb 0 s.count then some (record { count = s.count - 1 }) else none

unfoldable pub release : Semaphore → Semaphore
release s = record { count = s.count + 1 }

unfoldable pub try_acquire : Semaphore → Semaphore × Bool
try_acquire s = if ltb 0 s.count then (record { count = s.count - 1 }, true) else (s, false)

pub record SpinLock : Type 0 where
  pub flag : Bool

-- The new flag and the old one.
abbrev pub test_and_set : SpinLock → SpinLock × Bool
test_and_set l = (record { flag = true }, l.flag)

-- One round of the loop of `lock`.
unfoldable pub lock : SpinLock → Option SpinLock
lock l = if (test_and_set l).1 then none else some (test_and_set l).0

unfoldable pub unlock : SpinLock → SpinLock
unlock l = record { flag = false }

unfoldable pub try_lock : SpinLock → SpinLock × Bool
try_lock l = ((test_and_set l).0, not (test_and_set l).1)
