-- ===== src/Scheduler.antt =====
-- The round-robin scheduler: src/process/scheduler.h and src/process/scheduler.cpp, `SimpleScheduler`.
-- Every operation is the section it runs under `scheduler_mutex_`. Two things end the program or stop it
-- for good: a joinable `std::thread` that is overwritten, and a join under the mutex of a thread that
-- still has to take the mutex. They are outcomes of a turn of the loop.
pub mod Find
pub mod Erase
pub mod Valid
pub mod Turn
pub mod Create
pub mod Reach
pub mod Ends
mod Tests
use os_course_design.Prelude.{
  ℕ, zero, suc, ◌-◌, Bool, true, false, List, [], ◌∷◌, ◌++◌, Option, none, some, leb, ◌==◌,
  if◌then◌else◌, length, add32, ◌&&◌,
}

pub data ProcessState : Type 0 where
  ready : ProcessState
  running : ProcessState
  waiting : ProcessState
  terminated : ProcessState

-- `Process::thread`: null, a thread that is before its last section under the mutex, or one behind it.
pub data Thread : Type 0 where
  no_thread : Thread
  executing : Thread
  finished : Thread

-- Of the task, only whether it throws is held.
pub record Process : Type 0 where
  pub pid : ℕ
  pub name : List ℕ
  pub state : ProcessState
  pub thread : Thread
  pub throws : Bool
  pub may_run : Bool
  pub time_slice : ℕ
  pub remaining_time : ℕ
  pub start_time : ℕ

pub record SimpleScheduler : Type 0 where
  pub processes : List Process
  pub ready_queue : List ℕ
  pub is_running : Bool
  pub current_pid : ℕ
  pub next_pid : ℕ

pub data Outcome : Type 0 where
  continues : SimpleScheduler → Outcome
  aborts : Outcome
  deadlocks : Outcome

abbrev pub max_processes : ℕ
max_processes = 8

abbrev pub time_slice_ms : ℕ
time_slice_ms = 100

abbrev pub simple_scheduler : SimpleScheduler
simple_scheduler = record {
  processes = [];
  ready_queue = [];
  is_running = false;
  current_pid = 0;
  next_pid = 1;
}

-- `find_if` by pid.
pub find_process : List Process → ℕ → Option Process
find_process [] pid = none
find_process (p ∷ ps) pid = if p.pid == pid then some p else find_process ps pid

-- A change through the iterator of `find_if`.
pub update_process : List Process → ℕ → (Process → Process) → List Process
update_process [] pid f = []
update_process (p ∷ ps) pid f = if p.pid == pid then f p ∷ ps else p ∷ update_process ps pid f

abbrev pub is_ready : ProcessState → Bool
is_ready ready = true
is_ready _ = false

abbrev pub is_in_run : ProcessState → Bool
is_in_run running = true
is_in_run _ = false

abbrev pub is_terminated : ProcessState → Bool
is_terminated terminated = true
is_terminated _ = false

abbrev pub new_process : ℕ → List ℕ → Bool → Process
new_process pid name throws = record {
  pid = pid;
  name = name;
  state = ready;
  thread = no_thread;
  throws = throws;
  may_run = false;
  time_slice = time_slice_ms;
  remaining_time = time_slice_ms;
  start_time = 0;
}

-- The new state and the pid, or 0.
unfoldable pub create_process : List ℕ → Bool → SimpleScheduler → SimpleScheduler × ℕ
create_process name throws s = if leb max_processes (length s.processes) then (s, 0) else (
  record s {
    processes = s.processes ++ new_process s.next_pid name throws ∷ [];
    ready_queue = s.ready_queue ++ s.next_pid ∷ [];
    next_pid = add32 s.next_pid 1;
  },
  s.next_pid,
)

unfoldable pub start : SimpleScheduler → SimpleScheduler
start s = if s.is_running then s else record s { is_running = true }

abbrev pub dispatched : ℕ → Process → Process
dispatched now p = record p {
  state = running;
  remaining_time = p.time_slice;
  may_run = true;
  start_time = now;
  thread = executing;
}

abbrev pub dispatch : ℕ → ℕ → SimpleScheduler → SimpleScheduler
dispatch now pid s = record s {
  current_pid = pid;
  processes = update_process s.processes pid (dispatched now);
}

-- The `make_unique` of a new thread destroys the old one, and the destructor of a joinable thread aborts.
abbrev pub dispatch_over : Thread → SimpleScheduler → Outcome
dispatch_over no_thread s = continues s
dispatch_over executing s = aborts
dispatch_over finished s = aborts

unfoldable pub schedule_next : ℕ → SimpleScheduler → Outcome
schedule_next now s = elim s.ready_queue [
  | [] ↦ continues (record s { current_pid = 0 })
  | pid ∷ queue ↦ elim (find_process s.processes pid) [
    | none ↦ continues (record s { ready_queue = queue })
    | some p ↦
        if is_ready p.state
        then dispatch_over p.thread (dispatch now pid (record s { ready_queue = queue }))
        else continues (record s { ready_queue = queue })
  ]
]

abbrev pub preempted : Process → Process
preempted p = record p { state = ready; may_run = false }

unfoldable pub check_preemption : ℕ → SimpleScheduler → SimpleScheduler
check_preemption now s =
    if s.current_pid == 0 then s else elim (find_process s.processes s.current_pid) [
      | none ↦ s
      | some p ↦
          if is_in_run p.state
          then if leb p.time_slice (now - p.start_time)
            then record s {
              processes = update_process s.processes s.current_pid preempted;
              ready_queue = s.ready_queue ++ s.current_pid ∷ [];
              current_pid = 0;
            }
            else s
          else s
    ]

-- One process of the loop of `cleanup_finished_processes`: joined and erased, or kept. A thread whose task
-- throws ends without the mutex, in the catch block of `run_process`, so it can be joined.
abbrev pub keep : Process → Option (List Process) → Option (List Process)
keep p none = none
keep p (some ps) = some (p ∷ ps)

abbrev pub clean : ProcessState → Thread → Process → Option (List Process) → Option (List Process)
clean terminated executing p rest = if p.throws then rest else none
clean terminated no_thread p rest = rest
clean terminated finished p rest = rest
clean ready t p rest = keep p rest
clean running t p rest = keep p rest
clean waiting t p rest = keep p rest

-- `cleanup_finished_processes`: none where it joins a thread that still needs the mutex.
pub cleaned : List Process → Option (List Process)
cleaned [] = some []
cleaned (p ∷ ps) = clean p.state p.thread p (cleaned ps)

-- The thread runs its catch block while the loop joins it.
abbrev pub is_caught : ProcessState → Thread → Bool → Bool
is_caught terminated executing throws = throws
is_caught terminated no_thread throws = false
is_caught terminated finished throws = false
is_caught ready t throws = false
is_caught running t throws = false
is_caught waiting t throws = false

-- `current_pid_` after the catch blocks that the loop waits for. The iterator of such a thread is taken to
-- stand at its own process, which the loop then erases.
pub current_after : List Process → ℕ → ℕ
current_after [] current = current
current_after (p ∷ ps) current =
    current_after ps
      (if is_caught p.state p.thread p.throws && (current == p.pid) then 0 else current)

unfoldable pub cleanup_finished_processes : SimpleScheduler → Outcome
cleanup_finished_processes s = elim (cleaned s.processes) [
  | none ↦ deadlocks
  | some ps ↦
      continues (record s { processes = ps; current_pid = current_after s.processes s.current_pid })
]

abbrev pub and_then : Outcome → (SimpleScheduler → Outcome) → Outcome
and_then (continues s) f = f s
and_then aborts f = aborts
and_then deadlocks f = deadlocks

-- One turn of `schedule_loop` that finds `running_` set; the two readings of the clock are arguments.
unfoldable pub schedule_turn : ℕ → ℕ → SimpleScheduler → Outcome
schedule_turn now later s = elim s.ready_queue [
  | [] ↦ continues s
  | _ ∷ _ ↦
      and_then (if s.current_pid == 0 then schedule_next now s else continues s)
        (λ t. cleanup_finished_processes (check_preemption later t))
]

abbrev pub ended : Process → Process
ended p = record p { state = terminated; may_run = false }

abbrev pub completed : Process → Process
completed p = record p { state = terminated; may_run = false; thread = finished }

abbrev pub release_current : ℕ → SimpleScheduler → SimpleScheduler
release_current pid s = if s.current_pid == pid then record s { current_pid = 0 } else s

-- An iterator into `processes_` is the place where it stands: erasures move the processes behind it, not
-- the place.
pub process_at : List Process → ℕ → Option Process
process_at [] place = none
process_at (p ∷ ps) zero = some p
process_at (p ∷ ps) (suc place) = process_at ps place

-- A change through an iterator; `none` is one past the end.
pub update_at : List Process → ℕ → (Process → Process) → Option (List Process)
update_at [] place f = none
update_at (p ∷ ps) zero f = some (f p ∷ ps)
update_at (p ∷ ps) (suc place) f = elim (update_at ps place f) [
  | none ↦ none
  | some qs ↦ some (p ∷ qs)
]

abbrev pub left : Process → Process
left p = record p { thread = finished }

-- The last section of `run_process` under the mutex, of the thread of `pid` whose task returned: `place` is
-- where the iterator that it took at its start stands now, which may be at another process, or past the
-- end (`none`, undefined). The catch block makes the same changes, but one by one and without the mutex: it
-- is modelled where a join waits for it alone.
unfoldable pub complete : ℕ → ℕ → SimpleScheduler → Option SimpleScheduler
unfolding update_at
complete place pid s = elim (update_at s.processes place ended) [
  | none ↦ none
  | some ps ↦ some (release_current pid (record s { processes = update_process ps pid left }))
]

-- The iterator stands at the process of the pid.
pub stands_at : List Process → ℕ → ℕ → Bool
unfolding process_at
stands_at ps place pid = elim (process_at ps place) [ none ↦ false | some p ↦ p.pid == pid ]

unfoldable pub terminate_process : ℕ → SimpleScheduler → SimpleScheduler
terminate_process pid s = elim (find_process s.processes pid) [
  | none ↦ s
  | some _ ↦ release_current pid (record s { processes = update_process s.processes pid ended })
]

abbrev pub get_process_count : SimpleScheduler → ℕ
get_process_count s = length s.processes

abbrev pub get_ready_count : SimpleScheduler → ℕ
get_ready_count s = length s.ready_queue
