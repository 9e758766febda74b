-- ===== src/Scheduler/Erase.antt =====
-- What `cleanup_finished_processes` leaves in the list of processes.
use os_course_design.Prelude.{
  ℕ, ◌≤◌, ◌≡◌, refl, subst, inl, inr, false, List, [], ◌∷◌, Option, none, some, arith, ◌==◌,
  if◌then◌else◌, Bool-cases, length, All,
}
use os_course_design.Scheduler.{Process, find_process, is_terminated, cleaned}
use os_course_design.Scheduler.Find.{NoPid, Distinct, cleaned-cases, find_absent}

nothing_cleaned : (qs : List Process) → cleaned [] ≡ some qs → qs ≡ []
unfolding cleaned
nothing_cleaned qs h = ground (arith, h)

pub pids-cleaned :
    (P : ℕ → Type 0) (ps qs : List Process)
    → cleaned ps ≡ some qs
    → All (λ p. P p.pid) ps
    → All (λ p. P p.pid) qs
pids-cleaned P [] qs h a = rw (nothing_cleaned qs h) tt
pids-cleaned P (p ∷ ps) qs h a = elim (cleaned-cases p ps qs h) [
  | inl (t, k) ↦ pids-cleaned P ps qs k a.1
  | inr (t, (rs, k, e)) ↦ rw e (a.0, pids-cleaned P ps rs k a.1)
]

pub Distinct-cleaned : (ps qs : List Process) → cleaned ps ≡ some qs → Distinct ps → Distinct qs
Distinct-cleaned [] qs h d = rw (nothing_cleaned qs h) tt
Distinct-cleaned (p ∷ ps) qs h d = elim (cleaned-cases p ps qs h) [
  | inl (t, k) ↦ Distinct-cleaned ps qs k d.1
  | inr (t, (rs, k, e)) ↦
      rw e (pids-cleaned (λ m. (m == p.pid) ≡ false) ps rs k d.0, Distinct-cleaned ps rs k d.1)
]

pub length-cleaned : (ps qs : List Process) → cleaned ps ≡ some qs → length qs ≤ length ps
length-cleaned [] qs h = rw (nothing_cleaned qs h) (ground arith)
length-cleaned (p ∷ ps) qs h = elim (cleaned-cases p ps qs h) [
  | inl (t, k) ↦ omega (arith, length-cleaned ps qs k)
  | inr (t, (rs, k, e)) ↦ rw e (omega (arith, length-cleaned ps rs k))
]

abbrev pub not_ended : Process → Option Process
not_ended x = if is_terminated x.state then none else some x

-- After the loop, a pid finds what it found before, less an ended process.
abbrev pub Kept : List Process → List Process → ℕ → Type 0
Kept ps qs n = find_process qs n ≡ elim (find_process ps n) [ none ↦ none | some x ↦ not_ended x ]

pub find-cleaned :
    (ps qs : List Process) (n : ℕ) → cleaned ps ≡ some qs → Distinct ps → Kept ps qs n
unfolding find_process
find-cleaned [] qs n h d = rw (nothing_cleaned qs h) refl
find-cleaned (p ∷ ps) qs n h d = elim (cleaned-cases p ps qs h) [
  | inl (t, k) ↦ elim (Bool-cases (p.pid == n)) [
    | inl u ↦
        rw (u, t)
          (find_absent qs n (
            pids-cleaned (λ m. (m == n) ≡ false) ps qs k
              (subst (λ m. NoPid m ps) (ground arith) d.0)))
    | inr u ↦ rw u (find-cleaned ps qs n k d.1)
  ]
  | inr (t, (rs, k, e)) ↦ elim (Bool-cases (p.pid == n)) [
    | inl u ↦ rw (e, u, t) refl
    | inr u ↦ rw e (rw u (find-cleaned ps rs n k d.1))
  ]
]
