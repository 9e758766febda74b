-- ===== src/Scheduler/Reach.antt =====
-- The runs of the scheduler, and the turns that end them.
use os_course_design.Prelude.{
  ℕ, zero, suc, ◌<◌, ◌≡◌, refl, sym, subst, inl, inr, true, false, some, List, arith, Bool-cases,
  uint32_max,
}
use os_course_design.Scheduler.{
  SimpleScheduler, continues, simple_scheduler, find_process, create_process, start, schedule_turn,
  complete, stands_at, terminate_process,
}
use os_course_design.Scheduler.Valid.{IsValid, complete-IsValid}
use os_course_design.Scheduler.Turn.{terminate_process-IsValid, schedule_turn-IsValid}
use os_course_design.Scheduler.Create.{Creates, create_process-Creates}

-- One section under the mutex. Pids do not wrap around, no task throws, and the iterator of a thread that
-- ends stands at its own process.
pub data Step : SimpleScheduler → SimpleScheduler → Type 0 where
  creates :
      (name : List ℕ) (s : SimpleScheduler)
      → s.next_pid < uint32_max
      → Step s (create_process name false s).0
  starts : (s : SimpleScheduler) → Step s (start s)
  turns :
      (now later : ℕ) (s t : SimpleScheduler)
      → s.is_running ≡ true
      → schedule_turn now later s ≡ continues t
      → Step s t
  completes :
      (place pid : ℕ) (s t : SimpleScheduler)
      → stands_at s.processes place pid ≡ true
      → complete place pid s ≡ some t
      → Step s t
  terminates : (pid : ℕ) (s : SimpleScheduler) → Step s (terminate_process pid s)

pub data Reachable : SimpleScheduler → Type 0 where
  constructed : Reachable simple_scheduler
  after : {s t : SimpleScheduler} → Reachable s → Step s t → Reachable t

created-IsValid :
    (name : List ℕ) (s t : SimpleScheduler) (n : ℕ)
    → IsValid s
    → Creates name false s t n
    → IsValid t
created-IsValid name s t zero v c = subst IsValid (sym c.0) v
created-IsValid name s t (suc n) v c = c.0

start-IsValid : (s : SimpleScheduler) → IsValid s → IsValid (start s)
unfolding start
start-IsValid s v = elim (Bool-cases s.is_running) [
  | inl t ↦ subst IsValid (ground (arith, t)) v
  | inr t ↦ subst IsValid (ground (arith, t)) flagged
]
  where
    flagged : IsValid (record s { is_running = true })
    flagged = record {
      distinct = v.distinct;
      numbered = v.numbered;
      positive = v.positive;
      bounded = v.bounded;
      single = v.single;
      current = v.current;
    }

Step-IsValid : {s t : SimpleScheduler} → IsValid s → Step s t → IsValid t
Step-IsValid v (creates name s small) =
    created-IsValid name s _ _ v (create_process-Creates name false s v small)
Step-IsValid v (starts s) = start-IsValid s v
Step-IsValid v (turns now later s t r h) = schedule_turn-IsValid now later s t v h
Step-IsValid v (completes place pid s t own h) = complete-IsValid place pid s t own h v
Step-IsValid v (terminates pid s) = (terminate_process-IsValid pid s v).0

simple_scheduler-IsValid : IsValid simple_scheduler
unfolding find_process
simple_scheduler-IsValid = record {
  distinct = tt;
  numbered = tt;
  positive = omega arith;
  bounded = omega arith;
  single = λ n r. absurd (ground (arith, r.1));
  current = inl refl;
}

-- In every state that is reached before the pids wrap around, while no task throws and every thread that
-- ends has an iterator that stands at its own process, the pids are distinct, positive and below the next
-- pid, there are at most 8 processes, every process in the running state is the current one, and the
-- current one is running.
pub Reachable-IsValid : {s : SimpleScheduler} → Reachable s → IsValid s
Reachable-IsValid constructed = simple_scheduler-IsValid
Reachable-IsValid (after r step) = Step-IsValid (Reachable-IsValid r) step
