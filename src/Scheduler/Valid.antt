-- ===== src/Scheduler/Valid.antt =====
-- What the operations of the scheduler keep: pids are distinct, positive and below the next one, there
-- are at most 8 processes, and the process that runs is the current one.
use os_course_design.Prelude.{
  ℕ, zero, suc, ap, ◌&&◌, Bool, ◌≤◌, ◌<◌, ◌≡◌, ◌⊎◌, refl, sym, subst, ◌∙◌, inl, inr, true, false,
  List, [], ◌∷◌, none, some, arith, ◌==◌, if◌then◌else◌, Bool-cases, Option-cases, length, All,
}
use os_course_design.Scheduler.{
  Process, SimpleScheduler, max_processes, find_process, update_process, is_in_run, left, ended,
  process_at, update_at, stands_at, complete, is_caught, current_after, ProcessState, ready,
  running, waiting, terminated, Thread,
}
use os_course_design.Scheduler.Find.{
  NoPid, Distinct, KeepsPid, find-update_self, find-update_ne, find-update_none, length-update,
  pids-update, Distinct-update, find_absent,
}

abbrev pub Runs : SimpleScheduler → ℕ → Type 0
Runs s n = (x : Process) × (find_process s.processes n ≡ some x) × (is_in_run x.state ≡ true)

pub record IsValid (s : SimpleScheduler) : Type 0 where
  pub distinct : Distinct s.processes
  pub numbered : All (λ p. (0 < p.pid) × (p.pid < s.next_pid)) s.processes
  pub positive : 0 < s.next_pid
  pub bounded : length s.processes ≤ max_processes
  pub single : (n : ℕ) → Runs s n → n ≡ s.current_pid
  pub current : (s.current_pid ≡ 0) ⊎ Runs s s.current_pid

pub new_NoPid :
    (ps : List Process) (n : ℕ)
    → All (λ p. (0 < p.pid) × (p.pid < n)) ps
    → All (λ p. (n == p.pid) ≡ false) ps
new_NoPid [] n a = tt
new_NoPid (p ∷ ps) n a = (ground (arith, a.0), new_NoPid ps n a.1)

pub grown_numbers :
    (ps : List Process) (n m : ℕ)
    → n ≤ m
    → All (λ p. (0 < p.pid) × (p.pid < n)) ps
    → All (λ p. (0 < p.pid) × (p.pid < m)) ps
grown_numbers [] n m h a = tt
grown_numbers (p ∷ ps) n m h a = ((a.0.0, omega (arith, a.0.1)), grown_numbers ps n m h a.1)

-- Only the current process runs, so no process runs while there is none.
zero_absent : (s : SimpleScheduler) → IsValid s → find_process s.processes 0 ≡ none
zero_absent s v = find_absent s.processes 0 (go s.processes v.numbered)
  where
    go : (ps : List Process) → All (λ p. (0 < p.pid) × (p.pid < s.next_pid)) ps → NoPid 0 ps
    go [] a = tt
    go (p ∷ ps) a = (ground (arith, a.0), go ps a.1)

pub idle : (s : SimpleScheduler) (n : ℕ) → IsValid s → s.current_pid ≡ 0 → ¬ (Runs s n)
idle s n v e (x, f, r) = absurd (
    ground (
      arith,
      zero_absent s v,
      subst (λ m. find_process s.processes m ≡ some x) (v.single n (x, f, r) ∙ e) f,
    ))

-- Stopping a process

abbrev pub Stops : (Process → Process) → Type 0
Stops f = (p : Process) → is_in_run (f p).state ≡ false

abbrev pub stopped : (Process → Process) → ℕ → List ℕ → SimpleScheduler → SimpleScheduler
stopped f n queue s = record s {
  processes = update_process s.processes n f;
  ready_queue = queue;
  current_pid = if s.current_pid == n then 0 else s.current_pid;
}

stopped_single :
    (f : Process → Process) (n : ℕ) (queue : List ℕ) (s : SimpleScheduler)
    → KeepsPid f
    → Stops f
    → IsValid s
    → (m : ℕ) → Runs (stopped f n queue s) m
    → (m ≡ s.current_pid) × ((n == m) ≡ false)
stopped_single f n queue s k stops v m (x, found, r) = elim (Bool-cases (n == m)) [
  | inl t ↦
      let e : n ≡ m = ground arith in
      let found' =
        subst (λ j. find_process (update_process s.processes n f) j ≡ some x) (sym e) found in
      elim (Option-cases (find_process s.processes n)) [
        | inl z ↦ absurd (ground (arith, find-update_none s.processes n f z, found'))
        | inr (y, z) ↦
            absurd (ground (arith, find-update_self s.processes n f y k z, found', stops y, r))
      ]
  | inr t ↦ (v.single m (x, sym (find-update_ne s.processes n m f k t) ∙ found, r), t)
]

pub stopped-IsValid :
    (f : Process → Process) (n : ℕ) (queue : List ℕ) (s : SimpleScheduler)
    → KeepsPid f
    → Stops f
    → IsValid s
    → IsValid (stopped f n queue s)
stopped-IsValid f n queue s k stops v = record {
  distinct = Distinct-update s.processes n f k v.distinct;
  numbered = pids-update (λ m. (0 < m) × (m < s.next_pid)) s.processes n f k v.numbered;
  positive = v.positive;
  bounded = omega (arith, length-update s.processes n f, v.bounded);
  single = λ m r. let (e, t) = stopped_single f n queue s k stops v m r in ground (arith, e, t);
  current = elim (Bool-cases (s.current_pid == n)) [
    | inl t ↦ rw t (inl refl)
    | inr t ↦ rw t (elim v.current [
      | inl z ↦ inl z
      | inr (x, found, r) ↦
          inr (x, find-update_ne s.processes n s.current_pid f k (ground arith) ∙ found, r)
    ])
  ];
}

-- The end of a task

abbrev completed : Process → Process
completed p = left (ended p)

twice :
    (ps : List Process) (pid : ℕ)
    → update_process (update_process ps pid ended) pid left ≡ update_process ps pid completed
unfolding update_process
twice [] pid = refl
twice (p ∷ ps) pid = ground (arith, twice ps pid)

All-process_at :
    (P : ℕ → Type 0) (ps : List Process) (place : ℕ) (x : Process)
    → All (λ p. P p.pid) ps
    → process_at ps place ≡ some x
    → P x.pid
unfolding process_at
All-process_at P [] place x a h = absurd (ground (arith, h))
All-process_at P (p ∷ ps) zero x a h = let e : p.pid ≡ x.pid = ground (arith, h) in subst P e a.0
All-process_at P (p ∷ ps) (suc place) x a h = All-process_at P ps place x a.1 h

update_at-own :
    (ps : List Process) (place pid : ℕ)
    → Distinct ps
    → stands_at ps place pid ≡ true
    → update_at ps place ended ≡ some (update_process ps pid ended)
unfolding update_at update_process stands_at process_at
update_at-own [] place pid d h = absurd (ground (arith, h))
update_at-own (p ∷ ps) zero pid d h = rw h refl
update_at-own (p ∷ ps) (suc place) pid d h = elim (Option-cases (process_at ps place)) [
  | inl z ↦ absurd (ground (arith, h, z))
  | inr (x, z) ↦
      let here : (x.pid == pid) ≡ true = ground (arith, h, z) in
      let apart = All-process_at (λ m. (m == p.pid) ≡ false) ps place x d.0 z in
      let other : (p.pid == pid) ≡ false = ground (arith, here, apart) in
      rw (other, update_at-own ps place pid d.1 h) refl
]

-- The end of a task keeps a valid scheduler valid if the iterator stands at its own process.
pub complete-IsValid :
    (place pid : ℕ) (s t : SimpleScheduler)
    → stands_at s.processes place pid ≡ true
    → complete place pid s ≡ some t
    → IsValid s
    → IsValid t
unfolding complete
complete-IsValid place pid s t own h v =
    let w = stopped-IsValid completed pid s.ready_queue s (λ p. refl) (λ p. refl) v in
    let changed = update_at-own s.processes place pid v.distinct own in
    elim (Bool-cases (s.current_pid == pid)) [
      | inl k ↦ subst IsValid (ground (arith, h, changed, twice s.processes pid, k)) w
      | inr k ↦ subst IsValid (ground (arith, h, changed, twice s.processes pid, k)) w
    ]

-- What the joins leave of the current process.

after_absent : (ps : List Process) (n : ℕ) → NoPid n ps → current_after ps n ≡ n
unfolding current_after
after_absent [] n a = refl
after_absent (p ∷ ps) n a =
    let ne : (n == p.pid) ≡ false = ground (arith, a.0) in
    elim (Bool-cases (is_caught p.state p.thread p.throws)) [
      | inl t ↦ rw (t, ne) (after_absent ps n a.1)
      | inr t ↦ rw t (after_absent ps n a.1)
    ]

after_zero : (ps : List Process) → current_after ps 0 ≡ 0
unfolding current_after
after_zero [] = refl
after_zero (p ∷ ps) = elim (Bool-cases (is_caught p.state p.thread p.throws && (0 == p.pid))) [
  | inl t ↦ rw t (after_zero ps)
  | inr t ↦ rw t (after_zero ps)
]

running_not_caught :
    (st : ProcessState) (th : Thread) (throws : Bool)
    → is_in_run st ≡ true
    → is_caught st th throws ≡ false
running_not_caught running th throws h = refl
running_not_caught ready th throws h = refl
running_not_caught waiting th throws h = refl
running_not_caught terminated th throws h = absurd (ground (arith, h))

after_running :
    (ps : List Process) (n : ℕ) (x : Process)
    → Distinct ps
    → find_process ps n ≡ some x
    → is_in_run x.state ≡ true
    → current_after ps n ≡ n
unfolding current_after find_process
after_running [] n x d h r = refl
after_running (p ∷ ps) n x d h r = elim (Bool-cases (p.pid == n)) [
  | inl t ↦
      let e : p ≡ x = ground (arith, h, t) in
      let runs = ap (λ (q : Process). is_in_run q.state) e ∙ r in
      rw (running_not_caught p.state p.thread p.throws runs)
        (after_absent ps n (subst (λ m. NoPid m ps) (ground arith) d.0))
  | inr t ↦
      let ne : (n == p.pid) ≡ false = ground (arith, t) in
      let rest = after_running ps n x d.1 (ground (arith, h, t)) r in
      elim (Bool-cases (is_caught p.state p.thread p.throws)) [
        | inl k ↦ rw (k, ne) rest
        | inr k ↦ rw k rest
      ]
]

pub current_after-same :
    (s : SimpleScheduler) → IsValid s → current_after s.processes s.current_pid ≡ s.current_pid
current_after-same s v = elim v.current [
  | inl z ↦ rw z (after_zero s.processes)
  | inr (x, found, r) ↦ after_running s.processes s.current_pid x v.distinct found r
]
