-- ===== src/Sync/Permits.antt =====
-- The threads that hold a permit of a semaphore.
use os_course_design.Prelude.{
  ℕ, ◌+◌, ◌-◌, ◌≤◌, ◌<◌, ◌≡◌, inl, inr, some, arith, ltb, if◌then◌else◌, Bool-cases,
}
use os_course_design.Sync.{Semaphore, acquire, release, try_acquire}

-- A semaphore and the number of permits that are out.
pub record World : Type 0 where
  pub semaphore : Semaphore
  pub held : ℕ

-- Only a thread that holds a permit gives one back.
pub data Step : World → World → Type 0 where
  acquires :
      (w : World) (s : Semaphore)
      → acquire w.semaphore ≡ some s
      → Step w (record { semaphore = s; held = w.held + 1 })
  tries :
      (w : World)
      → Step w (record {
        semaphore = (try_acquire w.semaphore).0;
        held = if (try_acquire w.semaphore).1 then w.held + 1 else w.held;
      })
  releases :
      (w : World)
      → 0 < w.held
      → Step w (record { semaphore = release w.semaphore; held = w.held - 1 })

pub data Reachable : ℕ → World → Type 0 where
  constructed : (n : ℕ) → Reachable n (record { semaphore = record { count = n }; held = 0 })
  after : {n : ℕ} {w w' : World} → Reachable n w → Step w w' → Reachable n w'

abbrev total : World → ℕ
total w = w.held + w.semaphore.count

acquire_count : (s t : Semaphore) → acquire s ≡ some t → s.count ≡ t.count + 1
unfolding acquire
acquire_count s t h = elim (Bool-cases (ltb 0 s.count)) [
  | inl k ↦ ground (arith, h, k)
  | inr k ↦ absurd (ground (arith, h, k))
]

total-Step : {w w' : World} → Step w w' → total w' ≡ total w
unfolding try_acquire release
total-Step (acquires w s h) = omega (arith, acquire_count w.semaphore s h)
total-Step (tries w) = elim (Bool-cases (ltb 0 w.semaphore.count)) [
  | inl k ↦ ground (arith, k)
  | inr k ↦ ground (arith, k)
]
total-Step (releases w h) = omega (arith, h)

-- Whatever the threads do, the permits that are out and the count of the semaphore add up to the count
-- that the semaphore was made with, if only a thread that holds a permit releases one: never are more
-- out than there were.
pub held-Reachable :
    {n : ℕ} {w : World} → Reachable n w → (w.held + w.semaphore.count ≡ n) × (w.held ≤ n)
held-Reachable (constructed n) = (omega arith, omega arith)
held-Reachable (after r step) =
    let (sum, bound) = held-Reachable r in
    (omega (arith, total-Step step, sum), omega (arith, total-Step step, sum))
