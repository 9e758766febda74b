-- ===== src/Scheduler/Ends.antt =====
-- The turns of the loop that end the program or stop it for good.
use os_course_design.Prelude.{
  ℕ, ◌-◌, ◌≤◌, ◌≡◌, ◌≢◌, refl, ap, sym, subst, ◌∙◌, inl, inr, true, false, List, [], ◌∷◌, ◌++◌,
  some, arith, leb, ◌==◌, if◌then◌else◌, Bool-cases, Option-cases, List-cases,
}
use os_course_design.Scheduler.{
  dispatch, dispatched, ProcessState, ready, running, waiting, terminated, executing, Process,
  SimpleScheduler, continues, aborts, find_process, update_process, is_ready, is_in_run,
  schedule_next, preempted, check_preemption, cleaned, cleanup_finished_processes, and_then,
  schedule_turn, ended, terminate_process,
}
use os_course_design.Scheduler.Find.{find-update_self, find-update_ne, cleaned-cases}
use os_course_design.Scheduler.Turn.{and_then_continues, Thread-cases}

-- The state after a preemption.
abbrev pub Preempts : ℕ → Process → SimpleScheduler → SimpleScheduler → Type 0
Preempts pid p s t =
    (find_process t.processes pid ≡ some (preempted p))
    × (t.ready_queue ≡ s.ready_queue ++ pid ∷ [])
    × (t.current_pid ≡ 0)

-- A running process that has used its time slice up is ready again at the end of the queue, with no
-- current process; its thread is not touched, so a turn that finds it at the head of the queue, with
-- no current process, aborts the program.
pub check_preemption-Preempts :
    (now : ℕ) (s : SimpleScheduler) (p : Process)
    → s.current_pid ≢ 0
    → find_process s.processes s.current_pid ≡ some p
    → is_in_run p.state ≡ true
    → p.time_slice ≤ now - p.start_time
    → Preempts s.current_pid p s (check_preemption now s)
      × ((t : SimpleScheduler) (queue : List ℕ) (pid a b : ℕ)
          → t.current_pid ≡ 0
          → t.ready_queue ≡ pid ∷ queue
          → find_process t.processes pid ≡ some (preempted p)
          → p.thread ≡ executing
          → schedule_turn a b t ≡ aborts)
unfolding check_preemption schedule_turn schedule_next
check_preemption-Preempts now s p ne found r late =
    let k : (s.current_pid == 0) ≡ false = ground arith in
    let l : leb p.time_slice (now - p.start_time) ≡ true = ground arith in
    (
      rw (k, found, r, l)
          (find-update_self s.processes s.current_pid preempted p (λ q. refl) found, refl, refl),
      λ t queue pid a b idle q f e. ground (arith, q, idle, f, e),
    )

-- Stuck in a join

abbrev Dead : ℕ → Process → List Process → Type 0
Dead pid x ps =
    (find_process ps pid ≡ some x)
    × (x.state ≡ terminated)
    × (x.thread ≡ executing)
    × (x.throws ≡ false)

Dead-cleaned :
    (ps qs : List Process) (pid : ℕ) (x : Process) → Dead pid x ps → ¬ (cleaned ps ≡ some qs)
unfolding find_process cleaned
Dead-cleaned [] qs pid x d h = absurd (ground (arith, d.0))
Dead-cleaned (p ∷ ps) qs pid x d h = elim (Bool-cases (p.pid == pid)) [
  | inl t ↦
      let e : p ≡ x = ground (arith, d.0, t) in
      ground (
        arith,
        h,
        ap (λ (q : Process). q.state) e ∙ d.1,
        ap (λ (q : Process). q.thread) e ∙ d.2,
        ap (λ (q : Process). q.throws) e ∙ d.3,
      )
  | inr t ↦ elim (cleaned-cases p ps qs h) [
    | inl (u, k) ↦ Dead-cleaned ps qs pid x (ground (arith, d.0, t), d.1, d.2, d.3) k
    | inr (u, (rs, k, e)) ↦ Dead-cleaned ps rs pid x (ground (arith, d.0, t), d.1, d.2, d.3) k
  ]
]

Dead-update :
    (ps : List Process) (pid n : ℕ) (x y : Process) (f : Process → Process)
    → ((q : Process) → (f q).pid ≡ q.pid)
    → find_process ps n ≡ some y
    → y.state ≢ terminated
    → Dead pid x ps
    → Dead pid x (update_process ps n f)
Dead-update ps pid n x y f k found alive d = elim (Bool-cases (n == pid)) [
  | inl t ↦
      let e : n ≡ pid = ground arith in
      absurd (
        alive (
          ap (λ (q : Process). q.state) (some_inj (sym found ∙ ap (find_process ps) e ∙ d.0))
          ∙ d.1))
  | inr t ↦ (find-update_ne ps n pid f k t ∙ d.0, d.1, d.2, d.3)
]
  where
    some_inj : {a b : Process} → some a ≡ some b → a ≡ b
    some_inj h = ground (arith, h)

not_ready : (st : ProcessState) → is_ready st ≡ true → st ≢ terminated
not_ready ready h e = absurd (ground (arith, ap is_ready e))
not_ready running h e = ground (arith, h)
not_ready waiting h e = ground (arith, h)
not_ready terminated h e = ground (arith, h)

not_in_run : (st : ProcessState) → is_in_run st ≡ true → st ≢ terminated
not_in_run running h e = absurd (ground (arith, ap is_in_run e))
not_in_run ready h e = ground (arith, h)
not_in_run waiting h e = ground (arith, h)
not_in_run terminated h e = ground (arith, h)

moved :
    (s t : SimpleScheduler) (pid : ℕ) (x : Process)
    → s ≡ t
    → Dead pid x s.processes
    → Dead pid x t.processes
moved s t pid x e d = subst (λ (u : SimpleScheduler). Dead pid x u.processes) e d

schedule_next-Dead :
    (now pid : ℕ) (s t : SimpleScheduler) (x : Process)
    → Dead pid x s.processes
    → schedule_next now s ≡ continues t
    → Dead pid x t.processes
unfolding schedule_next
schedule_next-Dead now pid s t x d h = elim (List-cases s.ready_queue) [
  | inl z ↦ moved (record s { current_pid = 0 }) t pid x (ground (arith, h, z)) d
  | inr (n, queue, z) ↦ elim (Option-cases (find_process s.processes n)) [
    | inl a ↦ moved (record s { ready_queue = queue }) t pid x (ground (arith, h, z, a)) d
    | inr (p, a) ↦ elim (Bool-cases (is_ready p.state)) [
      | inr k ↦ moved (record s { ready_queue = queue }) t pid x (ground (arith, h, z, a, k)) d
      | inl k ↦ elim (Thread-cases p.thread) [
        | inl e ↦
            moved (dispatch now n (record s { ready_queue = queue })) t pid x
              (ground (arith, h, z, a, k, e))
              (Dead-update s.processes pid n x p (dispatched now) (λ q. refl) a
                (not_ready p.state k) d)
        | inr e ↦
            absurd
              (e (dispatch now n (record s { ready_queue = queue })) t (ground (arith, h, z, a, k)))
      ]
    ]
  ]
]

check_preemption-Dead :
    (now pid : ℕ) (s : SimpleScheduler) (x : Process)
    → Dead pid x s.processes
    → Dead pid x (check_preemption now s).processes
unfolding check_preemption
check_preemption-Dead now pid s x d = elim (Bool-cases (s.current_pid == 0)) [
  | inl t ↦ rw t d
  | inr t ↦ elim (Option-cases (find_process s.processes s.current_pid)) [
    | inl z ↦ rw (t, z) d
    | inr (y, z) ↦ elim (Bool-cases (is_in_run y.state)) [
      | inr u ↦ rw (t, z, u) d
      | inl u ↦ elim (Bool-cases (leb y.time_slice (now - y.start_time))) [
        | inr k ↦ rw (t, z, u, k) d
        | inl k ↦
            rw (t, z, u, k)
              (Dead-update s.processes pid s.current_pid x y preempted (λ q. refl) z
                (not_in_run y.state u) d)
      ]
    ]
  ]
]

turn-Dead :
    (now later pid : ℕ) (s t : SimpleScheduler) (x : Process)
    → Dead pid x s.processes
    → s.ready_queue ≢ []
    → ¬ (schedule_turn now later s ≡ continues t)
unfolding schedule_turn cleanup_finished_processes
turn-Dead now later pid s t x d busy h = elim (List-cases s.ready_queue) [
  | inl z ↦ absurd (busy z)
  | inr (n, queue, z) ↦
      let both : and_then (if s.current_pid == 0 then schedule_next now s else continues s)
            (λ u. cleanup_finished_processes (check_preemption later u))
          ≡ continues t =
        ground (arith, h, z) in
      let (u, first, second) = and_then_continues _ _ t both in
      stuck u (check_preemption-Dead later pid u x (scheduled u first)) second
]
  where
    scheduled :
        (u : SimpleScheduler)
        → (if s.current_pid == 0 then schedule_next now s else continues s) ≡ continues u
        → Dead pid x u.processes
    scheduled u first = elim (Bool-cases (s.current_pid == 0)) [
      | inl k ↦ schedule_next-Dead now pid s u x d (ground (arith, first, k))
      | inr k ↦ moved s u pid x (ground (arith, first, k)) d
    ]

    stuck :
        (u : SimpleScheduler)
        → Dead pid x (check_preemption later u).processes
        → ¬ (cleanup_finished_processes (check_preemption later u) ≡ continues t)
    stuck u e g = elim (Option-cases (cleaned (check_preemption later u).processes)) [
      | inl z ↦ ground (arith, g, z)
      | inr (qs, z) ↦ Dead-cleaned (check_preemption later u).processes qs pid x e z
    ]

-- Once `terminate_process` has ended a process whose thread still executes a task that does not throw, no
-- turn of the loop that finds a process in the ready queue goes on: it joins that thread under the mutex,
-- which the thread needs for its last section, or it aborts before.
pub terminate_process-stuck :
    (now later pid : ℕ) (s t : SimpleScheduler) (p : Process)
    → find_process s.processes pid ≡ some p
    → p.thread ≡ executing
    → p.throws ≡ false
    → s.ready_queue ≢ []
    → ¬ (schedule_turn now later (terminate_process pid s) ≡ continues t)
unfolding terminate_process
terminate_process-stuck now later pid s t p found e quiet busy h =
    elim (Bool-cases (s.current_pid == pid)) [
      | inl k ↦
          turn-Dead now later pid (terminate_process pid s) t (ended p)
            (rw (found, terminate_process, k)
              (find-update_self s.processes pid ended p (λ q. refl) found, refl, e, quiet))
            (rw (found, terminate_process, k) busy) h
      | inr k ↦
          turn-Dead now later pid (terminate_process pid s) t (ended p)
            (rw (found, terminate_process, k)
              (find-update_self s.processes pid ended p (λ q. refl) found, refl, e, quiet))
            (rw (found, terminate_process, k) busy) h
    ]
