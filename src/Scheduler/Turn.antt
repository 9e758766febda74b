-- ===== src/Scheduler/Turn.antt =====
-- The operations of the scheduler and the turn of its loop.
use os_course_design.Prelude.{
  ℕ, ◌-◌, ◌<◌, ◌≡◌, ◌⊎◌, refl, sym, subst, ◌∙◌, inl, inr, true, false, List, [], ◌∷◌, ◌++◌, some,
  arith, leb, ◌==◌, if◌then◌else◌, Bool-cases, Option-cases, List-cases,
}
use os_course_design.Scheduler.{
  ProcessState, ready, running, waiting, terminated, Thread, no_thread, executing, finished,
  Process, SimpleScheduler, Outcome, continues, aborts, deadlocks, find_process, is_ready,
  is_in_run, is_terminated, dispatched, dispatch, dispatch_over, schedule_next, preempted,
  check_preemption, cleaned, cleanup_finished_processes, and_then, schedule_turn, ended,
  terminate_process,
}
use os_course_design.Scheduler.Find.{
  Distinct, find-update_self, find-update_ne, length-update, pids-update, Distinct-update,
}
use os_course_design.Scheduler.Erase.{pids-cleaned, Distinct-cleaned, length-cleaned, find-cleaned}
use os_course_design.Scheduler.Valid.{IsValid, idle, stopped-IsValid, current_after-same}

-- `terminate_process` keeps a valid scheduler valid, and the process, if there is one of the pid, is then
-- ended.
pub terminate_process-IsValid :
    (pid : ℕ) (s : SimpleScheduler)
    → IsValid s
    → IsValid (terminate_process pid s)
      × ((p : Process)
          → find_process s.processes pid ≡ some p
          → find_process (terminate_process pid s).processes pid ≡ some (ended p))
unfolding terminate_process
terminate_process-IsValid pid s v =
    let w = stopped-IsValid ended pid s.ready_queue s (λ p. refl) (λ p. refl) v in
    elim (Option-cases (find_process s.processes pid)) [
      | inl z ↦ rw (z, terminate_process) (v, λ p h. absurd (ground (arith, h)))
      | inr (x, z) ↦ elim (Bool-cases (s.current_pid == pid)) [
        | inl t ↦
            rw (z, terminate_process, t)
              (
                subst IsValid (ground arith) w,
                λ p h. find-update_self s.processes pid ended p (λ q. refl) (z ∙ h),
              )
        | inr t ↦
            rw (z, terminate_process, t)
              (
                subst IsValid (ground arith) w,
                λ p h. find-update_self s.processes pid ended p (λ q. refl) (z ∙ h),
              )
      ]
    ]

check_preemption-IsValid :
    (now : ℕ) (s : SimpleScheduler) → IsValid s → IsValid (check_preemption now s)
unfolding check_preemption
check_preemption-IsValid now s v =
    let w =
      stopped-IsValid preempted s.current_pid (s.ready_queue ++ s.current_pid ∷ []) s (λ p. refl)
        (λ p. refl) v in
    elim (Bool-cases (s.current_pid == 0)) [
      | inl t ↦ rw t v
      | inr t ↦ elim (Option-cases (find_process s.processes s.current_pid)) [
        | inl z ↦ rw (t, z) v
        | inr (x, z) ↦ elim (Bool-cases (is_in_run x.state)) [
          | inr u ↦ rw (t, z, u) v
          | inl u ↦ elim (Bool-cases (leb x.time_slice (now - x.start_time))) [
            | inr k ↦ rw (t, z, u, k) v
            | inl k ↦ rw (t, z, u, k) (subst IsValid (ground arith) w)
          ]
        ]
      ]
    ]

in_run_not_ended : (st : ProcessState) → is_in_run st ≡ true → is_terminated st ≡ false
in_run_not_ended running h = refl
in_run_not_ended ready h = refl
in_run_not_ended waiting h = refl
in_run_not_ended terminated h = absurd (ground arith)

find_before :
    (ps qs : List Process) (n : ℕ) (x : Process)
    → cleaned ps ≡ some qs
    → Distinct ps
    → find_process qs n ≡ some x
    → find_process ps n ≡ some x
find_before ps qs n x z d found = elim (Option-cases (find_process ps n)) [
  | inl a ↦ absurd (ground (arith, find-cleaned ps qs n z d, a, found))
  | inr (y, a) ↦ elim (Bool-cases (is_terminated y.state)) [
    | inl t ↦ absurd (ground (arith, find-cleaned ps qs n z d, a, found, t))
    | inr t ↦ ground (arith, find-cleaned ps qs n z d, a, found, t)
  ]
]

cleanup-IsValid :
    (s t : SimpleScheduler) → IsValid s → cleanup_finished_processes s ≡ continues t → IsValid t
unfolding cleanup_finished_processes
cleanup-IsValid s t v h = elim (Option-cases (cleaned s.processes)) [
  | inl z ↦ absurd (ground (arith, h, z))
  | inr (qs, z) ↦ subst IsValid (ground (arith, h, z)) (
      subst (λ n. IsValid (record s { processes = qs; current_pid = n }))
        (sym (current_after-same s v)) (kept qs z))
]
  where
    kept :
        (qs : List Process) → cleaned s.processes ≡ some qs → IsValid (record s { processes = qs })
    kept qs z = record {
      distinct = Distinct-cleaned s.processes qs z v.distinct;
      numbered = pids-cleaned (λ m. (0 < m) × (m < s.next_pid)) s.processes qs z v.numbered;
      positive = v.positive;
      bounded = omega (arith, length-cleaned s.processes qs z, v.bounded);
      single = λ n r. v.single n (r.0, find_before s.processes qs n r.0 z v.distinct r.1, r.2);
      current = elim v.current [
        | inl e ↦ inl e
        | inr (x, found, r) ↦ inr (
          x,
          ground (
            arith,
            find-cleaned s.processes qs s.current_pid z v.distinct,
            found,
            in_run_not_ended x.state r,
          ),
          r,
        )
      ];
    }

dispatch-IsValid :
    (now pid : ℕ) (s : SimpleScheduler) (p : Process)
    → IsValid s
    → s.current_pid ≡ 0
    → find_process s.processes pid ≡ some p
    → IsValid (dispatch now pid s)
dispatch-IsValid now pid s p v e found = record {
  distinct = Distinct-update s.processes pid (dispatched now) (λ q. refl) v.distinct;
  numbered =
      pids-update (λ m. (0 < m) × (m < s.next_pid)) s.processes pid (dispatched now) (λ q. refl)
        v.numbered;
  positive = v.positive;
  bounded = omega (arith, length-update s.processes pid (dispatched now), v.bounded);
  single = λ n r. elim (Bool-cases (pid == n)) [
    | inl t ↦ ground arith
    | inr t ↦ absurd (
        idle s n v e
          (r.0, sym (find-update_ne s.processes pid n (dispatched now) (λ q. refl) t) ∙ r.1, r.2))
  ];
  current = inr (
    dispatched now p,
    find-update_self s.processes pid (dispatched now) p (λ q. refl) found,
    refl,
  );
}

requeued-IsValid :
    (queue : List ℕ) (s : SimpleScheduler) → IsValid s → IsValid (record s { ready_queue = queue })
requeued-IsValid queue s v = record {
  distinct = v.distinct;
  numbered = v.numbered;
  positive = v.positive;
  bounded = v.bounded;
  single = v.single;
  current = v.current;
}

pub Thread-cases :
    (th : Thread)
    → (th ≡ no_thread) ⊎ ((s t : SimpleScheduler) → ¬ (dispatch_over th s ≡ continues t))
Thread-cases no_thread = inl refl
Thread-cases executing = inr (λ s t h. ground (arith, h))
Thread-cases finished = inr (λ s t h. ground (arith, h))

schedule_next-IsValid :
    (now : ℕ) (s t : SimpleScheduler)
    → IsValid s
    → s.current_pid ≡ 0
    → schedule_next now s ≡ continues t
    → IsValid t
unfolding schedule_next
schedule_next-IsValid now s t v e h = elim (List-cases s.ready_queue) [
  | inl z ↦ subst IsValid (ground (arith, h, z, e)) v
  | inr (pid, queue, z) ↦
      let w = requeued-IsValid queue s v in
      elim (Option-cases (find_process s.processes pid)) [
        | inl a ↦ subst IsValid (ground (arith, h, z, a)) w
        | inr (p, a) ↦ elim (Bool-cases (is_ready p.state)) [
          | inr k ↦ subst IsValid (ground (arith, h, z, a, k)) w
          | inl k ↦ elim (Thread-cases p.thread) [
            | inl n ↦
                subst IsValid (ground (arith, h, z, a, k, n))
                  (dispatch-IsValid now pid (record s { ready_queue = queue }) p w e a)
            | inr n ↦ absurd (
                n (dispatch now pid (record s { ready_queue = queue })) t
                  (ground (arith, h, z, a, k)))
          ]
        ]
      ]
]

Outcome-cases :
    (o : Outcome)
    → ((s : SimpleScheduler) × (o ≡ continues s)) ⊎ ((s : SimpleScheduler) → ¬ (o ≡ continues s))
Outcome-cases (continues s) = inl (s, refl)
Outcome-cases aborts = inr (λ s h. ground (arith, h))
Outcome-cases deadlocks = inr (λ s h. ground (arith, h))

pub and_then_continues :
    (o : Outcome) (f : SimpleScheduler → Outcome) (t : SimpleScheduler)
    → and_then o f ≡ continues t
    → (s : SimpleScheduler) × (o ≡ continues s) × (f s ≡ continues t)
and_then_continues (continues s) f t h = (s, refl, h)
and_then_continues aborts f t h = absurd (ground (arith, h))
and_then_continues deadlocks f t h = absurd (ground (arith, h))

-- A turn of the loop that goes on keeps a valid scheduler valid.
pub schedule_turn-IsValid :
    (now later : ℕ) (s t : SimpleScheduler)
    → IsValid s
    → schedule_turn now later s ≡ continues t
    → IsValid t
unfolding schedule_turn
schedule_turn-IsValid now later s t v h = elim (List-cases s.ready_queue) [
  | inl z ↦ subst IsValid (ground (arith, h, z)) v
  | inr (pid, queue, z) ↦
      let both : and_then (if s.current_pid == 0 then schedule_next now s else continues s)
            (λ u. cleanup_finished_processes (check_preemption later u))
          ≡ continues t =
        ground (arith, h, z) in
      let (u, first, second) = and_then_continues _ _ t both in
      cleanup-IsValid (check_preemption later u) t
        (check_preemption-IsValid later u (scheduled u first)) second
]
  where
    scheduled :
        (u : SimpleScheduler)
        → (if s.current_pid == 0 then schedule_next now s else continues s) ≡ continues u
        → IsValid u
    scheduled u first = elim (Bool-cases (s.current_pid == 0)) [
      | inl k ↦ schedule_next-IsValid now s u v (ground arith) (ground (arith, first, k))
      | inr k ↦ subst IsValid (ground (arith, first, k)) v
    ]
