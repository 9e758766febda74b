-- ===== src/Scheduler/Tests.antt =====
-- The scheduler on short runs.
use os_course_design.Prelude.{ℕ, ◌≡◌, refl, true, false, List, [], ◌∷◌, some, arith}
use os_course_design.Scheduler.{
  ProcessState, ready, running, terminated, Thread, no_thread, executing, Process, SimpleScheduler,
  Outcome, continues, aborts, deadlocks, simple_scheduler, new_process, find_process,
  create_process, schedule_turn, preempted, check_preemption, complete, terminate_process, start,
  dispatched, ended, left, stands_at,
}
use os_course_design.Scheduler.Valid.{IsValid}
use os_course_design.Scheduler.Create.{Creates, create_process-Creates}
use os_course_design.Scheduler.Reach.{
  constructed, after, creates, starts, turns, completes, Reachable-IsValid,
}
use os_course_design.Scheduler.Ends.{Preempts, check_preemption-Preempts, terminate_process-stuck}

-- One process, made by `create_process`.
abbrev one : SimpleScheduler
one = record simple_scheduler {
  processes = new_process 1 [] false ∷ [];
  ready_queue = 1 ∷ [];
  next_pid = 2;
}

-- The process dispatched at time 5, and a second one ready.
abbrev busy : SimpleScheduler
busy = record {
  processes = dispatched 5 (new_process 1 [] false) ∷ new_process 2 [] false ∷ [];
  ready_queue = 2 ∷ [];
  is_running = true;
  current_pid = 1;
  next_pid = 3;
}

runs_first :
    schedule_turn 5 6 (record busy {
      processes = new_process 1 [] false ∷ new_process 2 [] false ∷ [];
      ready_queue = 1 ∷ 2 ∷ [];
      current_pid = 0;
    })
    ≡ continues busy
unfolding schedule_turn os_course_design.Scheduler.schedule_next find_process
    os_course_design.Scheduler.cleanup_finished_processes os_course_design.Scheduler.cleaned
    check_preemption os_course_design.Scheduler.update_process
    os_course_design.Scheduler.current_after
runs_first = refl

-- The only process runs at time 5, and ends.
abbrev runs_one : SimpleScheduler
runs_one = record one {
  processes = dispatched 5 (new_process 1 [] false) ∷ [];
  ready_queue = [];
  is_running = true;
  current_pid = 1;
}

abbrev ended_one : SimpleScheduler
ended_one = record runs_one {
  processes = left (ended (dispatched 5 (new_process 1 [] false))) ∷ [];
  current_pid = 0;
}

dispatches :
    schedule_turn 5 6 (start (create_process [] false simple_scheduler).0) ≡ continues runs_one
unfolding schedule_turn os_course_design.Scheduler.schedule_next find_process create_process start
    os_course_design.Scheduler.cleanup_finished_processes os_course_design.Scheduler.cleaned
    check_preemption os_course_design.Scheduler.update_process
    os_course_design.Scheduler.current_after
dispatches = refl

completes_one : complete 0 1 runs_one ≡ some ended_one
unfolding complete os_course_design.Scheduler.update_at os_course_design.Scheduler.update_process
completes_one = refl

stands_own : stands_at runs_one.processes 0 1 ≡ true
unfolding stands_at os_course_design.Scheduler.process_at
stands_own = refl

is_started : (start (create_process [] false simple_scheduler).0).is_running ≡ true
unfolding start create_process
is_started = refl

Reachable-IsValid_example : IsValid ended_one
Reachable-IsValid_example = Reachable-IsValid (
    after
      (after
        (after (after constructed (creates [] simple_scheduler (omega arith)))
          (starts (create_process [] false simple_scheduler).0))
        (turns 5 6 (start (create_process [] false simple_scheduler).0) runs_one is_started
          dispatches))
      (completes 0 1 runs_one ended_one stands_own completes_one))

-- The iterator of process 2 still stands at place 1, where process 3 is after an erasure.
ends_another :
    complete 1 2 (record busy {
      processes = dispatched 5 (new_process 2 [] false) ∷ new_process 3 [] false ∷ [];
      current_pid = 2;
    })
    ≡ some (record busy {
      processes =
          left (dispatched 5 (new_process 2 [] false)) ∷ ended (new_process 3 [] false) ∷ [];
      current_pid = 0;
    })
unfolding complete os_course_design.Scheduler.update_at os_course_design.Scheduler.update_process
ends_another = refl

simple-IsValid : IsValid simple_scheduler
simple-IsValid = Reachable-IsValid constructed

create_process-Creates_example : Creates [] false simple_scheduler one 1
unfolding create_process
create_process-Creates_example =
    create_process-Creates [] false simple_scheduler simple-IsValid (omega arith)

terminate_process-stuck_example : ¬ (schedule_turn 7 8 (terminate_process 1 busy) ≡ continues busy)
unfolding find_process
terminate_process-stuck_example =
    terminate_process-stuck 7 8 1 busy busy (dispatched 5 (new_process 1 [] false)) refl refl refl
      (λ e. absurd (ground (arith, e)))

-- A thread whose task throws is joined.
joins_caught :
    (schedule_turn 7 8 (
      terminate_process 1 (record busy {
        processes = dispatched 5 (new_process 1 [] true) ∷ [];
        ready_queue = 1 ∷ [];
      })))
    ≡ continues (record busy { processes = []; ready_queue = []; current_pid = 0 })
unfolding schedule_turn terminate_process find_process os_course_design.Scheduler.schedule_next
    os_course_design.Scheduler.update_process os_course_design.Scheduler.cleanup_finished_processes
    os_course_design.Scheduler.cleaned check_preemption os_course_design.Scheduler.current_after
joins_caught = refl

joins_for_good : schedule_turn 7 8 (terminate_process 1 busy) ≡ deadlocks
unfolding schedule_turn terminate_process find_process os_course_design.Scheduler.schedule_next
    os_course_design.Scheduler.update_process os_course_design.Scheduler.cleanup_finished_processes
    os_course_design.Scheduler.cleaned check_preemption
joins_for_good = refl

check_preemption-Preempts_example :
    Preempts 1 (dispatched 5 (new_process 1 [] false)) busy (check_preemption 200 busy)
    × ((t : SimpleScheduler) (queue : List ℕ) (pid a b : ℕ)
        → t.current_pid ≡ 0
        → t.ready_queue ≡ pid ∷ queue
        → find_process t.processes pid ≡ some (preempted (dispatched 5 (new_process 1 [] false)))
        → executing ≡ executing
        → schedule_turn a b t ≡ aborts)
unfolding find_process
check_preemption-Preempts_example =
    check_preemption-Preempts 200 busy (dispatched 5 (new_process 1 [] false)) (omega arith) refl
      refl (omega arith)
