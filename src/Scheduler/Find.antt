-- ===== src/Scheduler/Find.antt =====
-- The list of processes: looking a process up by its pid, changing it, and erasing the ended ones.
use os_course_design.Prelude.{
  ℕ, ◌≡◌, ◌⊎◌, refl, ap, sym, subst, inl, inr, true, false, List, [], ◌∷◌, ◌++◌, none, some, arith,
  ◌==◌, if◌then◌else◌, Bool-cases, Option-cases, length, All,
}
use os_course_design.Scheduler.{
  ProcessState, ready, running, waiting, terminated, Thread, no_thread, executing, finished,
  Process, find_process, update_process, is_terminated, cleaned,
}

abbrev pub NoPid : ℕ → List Process → Type 0
NoPid n = All (λ p. (p.pid == n) ≡ false)

abbrev pub Distinct : List Process → Type 0
Distinct [] = Unit {0}
Distinct (p ∷ ps) = NoPid p.pid ps × Distinct ps

abbrev pub KeepsPid : (Process → Process) → Type 0
KeepsPid f = (p : Process) → (f p).pid ≡ p.pid

pub find_pid : (ps : List Process) (n : ℕ) (x : Process) → find_process ps n ≡ some x → x.pid ≡ n
unfolding find_process
find_pid [] n x h = absurd (ground arith)
find_pid (p ∷ ps) n x h = elim (Bool-cases (p.pid == n)) [
  | inl t ↦ ground (arith, h, t)
  | inr t ↦ find_pid ps n x (ground arith)
]

pub find-update_self :
    (ps : List Process) (n : ℕ) (f : Process → Process) (x : Process)
    → KeepsPid f
    → find_process ps n ≡ some x
    → find_process (update_process ps n f) n ≡ some (f x)
unfolding find_process update_process
find-update_self [] n f x k h = absurd (ground arith)
find-update_self (p ∷ ps) n f x k h = elim (Bool-cases (p.pid == n)) [
  | inl t ↦ ground (arith, h, t, k p)
  | inr t ↦ rw t (rw t (find-update_self ps n f x k (ground arith)))
]

pub find-update_ne :
    (ps : List Process) (n m : ℕ) (f : Process → Process)
    → KeepsPid f
    → (n == m) ≡ false
    → find_process (update_process ps n f) m ≡ find_process ps m
unfolding find_process update_process
find-update_ne [] n m f k h = refl
find-update_ne (p ∷ ps) n m f k h = elim (Bool-cases (p.pid == n)) [
  | inl t ↦ ground (arith, k p)
  | inr t ↦ ground (arith, find-update_ne ps n m f k h)
]

pub find-update_none :
    (ps : List Process) (n : ℕ) (f : Process → Process)
    → find_process ps n ≡ none
    → find_process (update_process ps n f) n ≡ none
unfolding find_process update_process
find-update_none [] n f h = refl
find-update_none (p ∷ ps) n f h = elim (Bool-cases (p.pid == n)) [
  | inl t ↦ absurd (ground (arith, h, t))
  | inr t ↦ rw t (rw t (find-update_none ps n f (ground arith)))
]

pub length-update :
    (ps : List Process) (n : ℕ) (f : Process → Process) → length (update_process ps n f) ≡ length ps
unfolding update_process
length-update [] n f = refl
length-update (p ∷ ps) n f = ground (arith, length-update ps n f)

pub pids-update :
    (P : ℕ → Type 0) (ps : List Process) (n : ℕ) (f : Process → Process)
    → KeepsPid f
    → All (λ p. P p.pid) ps
    → All (λ p. P p.pid) (update_process ps n f)
unfolding update_process
pids-update P [] n f k a = tt
pids-update P (p ∷ ps) n f k a = elim (Bool-cases (p.pid == n)) [
  | inl t ↦ rw t (subst P (sym (k p)) a.0, a.1)
  | inr t ↦ rw t (a.0, pids-update P ps n f k a.1)
]

pub Distinct-update :
    (ps : List Process) (n : ℕ) (f : Process → Process)
    → KeepsPid f
    → Distinct ps
    → Distinct (update_process ps n f)
unfolding update_process
Distinct-update [] n f k d = tt
Distinct-update (p ∷ ps) n f k d = elim (Bool-cases (p.pid == n)) [
  | inl t ↦ rw t (rw (k p) d)
  | inr t ↦
      rw t (pids-update (λ m. (m == p.pid) ≡ false) ps n f k d.0, Distinct-update ps n f k d.1)
]

pub find-append :
    (ps : List Process) (x : Process) (n : ℕ)
    → find_process (ps ++ x ∷ []) n
      ≡ elim (find_process ps n) [ some y ↦ some y | none ↦ if x.pid == n then some x else none ]
unfolding find_process
find-append [] x n = refl
find-append (p ∷ ps) x n = ground (arith, find-append ps x n)

pub pids-append :
    (P : ℕ → Type 0) (ps : List Process) (x : Process)
    → All (λ p. P p.pid) ps
    → P x.pid
    → All (λ p. P p.pid) (ps ++ x ∷ [])
pids-append P [] x a h = (h, tt)
pids-append P (p ∷ ps) x a h = (a.0, pids-append P ps x a.1 h)

pub Distinct-append :
    (ps : List Process) (x : Process)
    → Distinct ps
    → All (λ p. (x.pid == p.pid) ≡ false) ps
    → Distinct (ps ++ x ∷ [])
Distinct-append [] x d n = (tt, tt)
Distinct-append (p ∷ ps) x d n =
    (pids-append (λ m. (m == p.pid) ≡ false) ps x d.0 n.0, Distinct-append ps x d.1 n.1)

pub find_absent : (ps : List Process) (n : ℕ) → NoPid n ps → find_process ps n ≡ none
unfolding find_process
find_absent [] n a = refl
find_absent (p ∷ ps) n a = rw a.0 (find_absent ps n a.1)

-- Erasing

-- What the loop does at the head: erases an ended process, or keeps it.
pub cleaned-cases :
    (p : Process) (ps qs : List Process)
    → cleaned (p ∷ ps) ≡ some qs
    → ((is_terminated p.state ≡ true) × (cleaned ps ≡ some qs))
      ⊎ ((is_terminated p.state ≡ false)
          × ((rs : List Process) × (cleaned ps ≡ some rs) × (qs ≡ p ∷ rs)))
unfolding cleaned
cleaned-cases p ps qs h = go p.state p.thread refl refl (Option-cases (cleaned ps))
  where
    go :
        (st : ProcessState) (th : Thread)
        → p.state ≡ st
        → p.thread ≡ th
        → ((cleaned ps ≡ none) ⊎ ((rs : List Process) × (cleaned ps ≡ some rs)))
        → ((is_terminated p.state ≡ true) × (cleaned ps ≡ some qs))
          ⊎ ((is_terminated p.state ≡ false)
              × ((rs : List Process) × (cleaned ps ≡ some rs) × (qs ≡ p ∷ rs)))
    go terminated executing e f c = elim (Bool-cases p.throws) [
      | inl t ↦ inl (ap is_terminated e, ground (arith, h, e, f, t))
      | inr t ↦ absurd (ground (arith, h, e, f, t))
    ]
    go terminated no_thread e f c = inl (ap is_terminated e, ground (arith, h, e, f))
    go terminated finished e f c = inl (ap is_terminated e, ground (arith, h, e, f))
    go ready th e f (inl z) = absurd (ground (arith, h, e, z))
    go ready th e f (inr (rs, z)) = inr (ap is_terminated e, (rs, z, ground (arith, h, e, z)))
    go running th e f (inl z) = absurd (ground (arith, h, e, z))
    go running th e f (inr (rs, z)) = inr (ap is_terminated e, (rs, z, ground (arith, h, e, z)))
    go waiting th e f (inl z) = absurd (ground (arith, h, e, z))
    go waiting th e f (inr (rs, z)) = inr (ap is_terminated e, (rs, z, ground (arith, h, e, z)))
