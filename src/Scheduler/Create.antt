-- ===== src/Scheduler/Create.antt =====
-- Creating a process.
use os_course_design.Prelude.{
  ℕ, zero, suc, ◌+◌, ◌-◌, ◌<◌, ◌≡◌, refl, ap, sym, subst, ◌∙◌, inl, inr, Bool, false, List, [], ◌∷◌,
  ◌++◌, none, some, arith, leb, leb→le, ==_self, ◌==◌, Bool-cases, Option-cases, length,
  length-append, All, add32, uint32_max,
}
use os_course_design.Scheduler.{
  Process, SimpleScheduler, max_processes, find_process, new_process, create_process,
}
use os_course_design.Scheduler.Find.{NoPid, find-append, pids-append, Distinct-append, find_absent}
use os_course_design.Scheduler.Valid.{Runs, IsValid, new_NoPid, grown_numbers}

-- What `create_process` does, by its answer: 0 only of a full table, and nothing changes; otherwise the
-- new pid is found ready, all other pids as before, and it is the last of the ready queue.
abbrev pub Creates : List ℕ → Bool → SimpleScheduler → SimpleScheduler → ℕ → Type 0
Creates name throws s t zero = (t ≡ s) × (length s.processes ≡ max_processes)
Creates name throws s t (suc n) =
    IsValid t
    × (suc n ≡ s.next_pid)
    × (t.ready_queue ≡ s.ready_queue ++ suc n ∷ [])
    × (find_process s.processes (suc n) ≡ none)
    × (find_process t.processes (suc n) ≡ some (new_process (suc n) name throws))
    × ((m : ℕ) → (suc n == m) ≡ false → find_process t.processes m ≡ find_process s.processes m)
    × (length s.processes < max_processes)

NoPid-of_new : (ps : List Process) (n : ℕ) → All (λ p. (0 < p.pid) × (p.pid < n)) ps → NoPid n ps
NoPid-of_new [] n a = tt
NoPid-of_new (p ∷ ps) n a = (ground (arith, a.0), NoPid-of_new ps n a.1)

created : List ℕ → Bool → SimpleScheduler → SimpleScheduler
created name throws s = record s {
  processes = s.processes ++ new_process s.next_pid name throws ∷ [];
  ready_queue = s.ready_queue ++ s.next_pid ∷ [];
  next_pid = s.next_pid + 1;
}

created_single :
    (name : List ℕ) (throws : Bool) (s : SimpleScheduler)
    → IsValid s
    → (m : ℕ) → Runs (created name throws s) m
    → m ≡ s.current_pid
unfolding created
created_single name throws s v m (x, found, r) = elim (Option-cases (find_process s.processes m)) [
  | inr (y, z) ↦ v.single m (
    x,
    ground (arith, find-append s.processes (new_process s.next_pid name throws) m, z, found),
    r,
  )
  | inl z ↦ elim (Bool-cases (s.next_pid == m)) [
    | inl k ↦ absurd (
        ground
          (arith, find-append s.processes (new_process s.next_pid name throws) m, z, found, k, r))
    | inr k ↦ absurd (
        ground (arith, find-append s.processes (new_process s.next_pid name throws) m, z, found, k))
  ]
]

created-IsValid :
    (name : List ℕ) (throws : Bool) (s : SimpleScheduler)
    → IsValid s
    → length s.processes < max_processes
    → IsValid (created name throws s)
unfolding created
created-IsValid name throws s v room = record {
  distinct = Distinct-append s.processes p v.distinct (new_NoPid s.processes s.next_pid v.numbered);
  numbered =
      pids-append (λ m. (0 < m) × (m < s.next_pid + 1)) s.processes p
        (grown_numbers s.processes s.next_pid (s.next_pid + 1) (omega arith) v.numbered)
        (v.positive, omega arith);
  positive = omega arith;
  bounded = omega (arith, length-append s.processes (p ∷ []), room);
  single = created_single name throws s v;
  current = elim v.current [
    | inl e ↦ inl e
    | inr (x, found, r) ↦ inr (x, find-append s.processes p s.current_pid ∙ rw found refl, r)
  ];
}
  where
    p : Process
    p = new_process s.next_pid name throws

created-Creates :
    (name : List ℕ) (throws : Bool) (s : SimpleScheduler) (n : ℕ)
    → IsValid s
    → length s.processes < max_processes
    → s.next_pid ≡ suc n
    → Creates name throws s (created name throws s) (suc n)
unfolding created
created-Creates name throws s n v room e = (
  created-IsValid name throws s v room,
  sym e,
  ap (λ m. s.ready_queue ++ m ∷ []) e,
  subst (λ m. find_process s.processes m ≡ none) e absent,
  subst
      (λ m.
        find_process (s.processes ++ new_process s.next_pid name throws ∷ []) m
        ≡ some (new_process m name throws))
      e
      (find-append s.processes (new_process s.next_pid name throws) s.next_pid
        ∙ rw (absent, ==_self s.next_pid) refl),
  λ m ne. others m (subst (λ k. (k == m) ≡ false) (sym e) ne),
  room,
)
  where
    absent : find_process s.processes s.next_pid ≡ none
    absent = find_absent s.processes s.next_pid (NoPid-of_new s.processes s.next_pid v.numbered)

    others :
        (m : ℕ)
        → (s.next_pid == m) ≡ false
        → find_process (s.processes ++ new_process s.next_pid name throws ∷ []) m
          ≡ find_process s.processes m
    others m ne = elim (Option-cases (find_process s.processes m)) [
      | inl z ↦ find-append s.processes (new_process s.next_pid name throws) m ∙ rw (z, ne) refl
      | inr (y, z) ↦ find-append s.processes (new_process s.next_pid name throws) m ∙ rw z refl
    ]

create_room :
    (name : List ℕ) (throws : Bool) (s : SimpleScheduler) (n : ℕ)
    → leb max_processes (length s.processes) ≡ false
    → s.next_pid < uint32_max
    → s.next_pid ≡ suc n
    → create_process name throws s ≡ (created name throws s, suc n)
unfolding create_process created
create_room name throws s n t small e =
    let wrap : add32 s.next_pid 1 ≡ s.next_pid + 1 = omega arith in
    rw t (rw wrap (ap (λ m. (created name throws s, m)) e))

-- While pids do not wrap around, `create_process` answers 0 exactly for a table of 8 processes, and then
-- changes nothing; otherwise it keeps a valid scheduler valid, answers a pid that no process had, finds
-- it ready, leaves the other processes as they were, and queues it last.
pub create_process-Creates :
    (name : List ℕ) (throws : Bool) (s : SimpleScheduler)
    → IsValid s
    → s.next_pid < uint32_max
    → Creates name throws s (create_process name throws s).0 (create_process name throws s).1
unfolding create_process
create_process-Creates name throws s v small =
    elim (Bool-cases (leb max_processes (length s.processes))) [
      | inl t ↦ rw t (refl, omega (arith, v.bounded, leb→le max_processes (length s.processes) t))
      | inr t ↦
          subst (λ r. Creates name throws s r.0 r.1)
            (sym (create_room name throws s (s.next_pid - 1) t small (omega (arith, v.positive))))
            (created-Creates name throws s (s.next_pid - 1) v (ground arith)
              (omega (arith, v.positive)))
    ]
