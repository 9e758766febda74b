-- ===== src/Sync/Tests.antt =====
-- Short runs of the locks.
use os_course_design.Prelude.{◌+◌, ◌≤◌, ◌≡◌, refl, true, false, none}
use os_course_design.Sync.{acquire, try_acquire, lock, try_lock}
use os_course_design.Sync.Permits
use os_course_design.Sync.Permits.{held-Reachable}
use os_course_design.Sync.Exclusion
use os_course_design.Sync.Exclusion.{Reachable-IsExclusive}

-- One of two permits is taken, and then the other by `try_acquire`.
abbrev fresh : Permits.World
fresh = record { semaphore = record { count = 2 }; held = 0 }

abbrev one_out : Permits.World
one_out = record { semaphore = record { count = 1 }; held = 1 }

abbrev both_out : Permits.World
both_out = record { semaphore = record { count = 0 }; held = 2 }

takes_one : Permits.Step fresh one_out
unfolding acquire
takes_one = Permits.acquires fresh (record { count = 1 }) refl

takes_other : Permits.Step one_out both_out
unfolding try_acquire
takes_other = Permits.tries one_out

third_waits : acquire (both_out.semaphore) ≡ none
unfolding acquire
third_waits = refl

held-Reachable_example : (both_out.held + both_out.semaphore.count ≡ 2) × (both_out.held ≤ 2)
held-Reachable_example =
    held-Reachable (Permits.after (Permits.after (Permits.constructed 2) takes_one) takes_other)

-- A thread takes the lock; another tries and fails.
abbrev open_lock : Exclusion.World
open_lock = record { spin_lock = record { flag = false }; inside = 0 }

abbrev taken_lock : Exclusion.World
taken_lock = record { spin_lock = record { flag = true }; inside = 1 }

locks_it : Exclusion.Step open_lock taken_lock
unfolding lock
locks_it = Exclusion.locks open_lock (record { flag = true }) refl

tries_it : Exclusion.Step taken_lock taken_lock
unfolding try_lock
tries_it = Exclusion.tries taken_lock

Reachable-IsExclusive_example : (taken_lock.inside ≡ 1) × (taken_lock.inside ≤ 1)
Reachable-IsExclusive_example =
    Reachable-IsExclusive
      (Exclusion.after (Exclusion.after Exclusion.constructed locks_it) tries_it)
