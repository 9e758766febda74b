-- ===== src/Sync/Exclusion.antt =====
-- The thread that holds a spin lock.
use os_course_design.Prelude.{
  ℕ, ◌+◌, ◌-◌, ◌≤◌, ◌<◌, ◌≡◌, refl, inl, inr, true, false, some, arith, if◌then◌else◌, Bool-cases,
}
use os_course_design.Sync.{SpinLock, lock, unlock, try_lock}

-- The lock and the number of threads between taking it and giving it back.
pub record World : Type 0 where
  pub spin_lock : SpinLock
  pub inside : ℕ

pub data Step : World → World → Type 0 where
  locks :
      (w : World) (l : SpinLock)
      → lock w.spin_lock ≡ some l
      → Step w (record { spin_lock = l; inside = w.inside + 1 })
  tries :
      (w : World)
      → Step w (record {
        spin_lock = (try_lock w.spin_lock).0;
        inside = if (try_lock w.spin_lock).1 then w.inside + 1 else w.inside;
      })
  unlocks :
      (w : World)
      → 0 < w.inside
      → Step w (record { spin_lock = unlock w.spin_lock; inside = w.inside - 1 })

pub data Reachable : World → Type 0 where
  constructed : Reachable (record { spin_lock = record { flag = false }; inside = 0 })
  after : {w w' : World} → Reachable w → Step w w' → Reachable w'

abbrev IsExclusive : World → Type 0
IsExclusive w = w.inside ≡ (if w.spin_lock.flag then 1 else 0)

lock_flags : (l t : SpinLock) → lock l ≡ some t → (l.flag ≡ false) × (t.flag ≡ true)
unfolding lock
lock_flags l t h = elim (Bool-cases l.flag) [
  | inl k ↦ absurd (ground (arith, h, k))
  | inr k ↦ (k, ground (arith, h, k))
]

Step-IsExclusive : {w w' : World} → Step w w' → IsExclusive w → IsExclusive w'
unfolding unlock try_lock
Step-IsExclusive (locks w l h) e =
    let (open_before, set_after) = lock_flags w.spin_lock l h in
    ground (arith, open_before, set_after, e)
Step-IsExclusive (tries w) e = elim (Bool-cases w.spin_lock.flag) [
  | inl k ↦ ground (arith, k, e)
  | inr k ↦ ground (arith, k, e)
]
Step-IsExclusive (unlocks w h) e = elim (Bool-cases w.spin_lock.flag) [
  | inl k ↦ ground (arith, k, e)
  | inr k ↦ absurd (ground (arith, k, e, h))
]

-- Whatever the threads do, if only a thread inside unlocks, at most one is inside, and exactly one while
-- the flag is set.
pub Reachable-IsExclusive :
    {w : World} → Reachable w → (w.inside ≡ (if w.spin_lock.flag then 1 else 0)) × (w.inside ≤ 1)
Reachable-IsExclusive r = let e = exclusive r in (e, bounded _ e)
  where
    exclusive : {w : World} → Reachable w → IsExclusive w
    exclusive constructed = refl
    exclusive (after r step) = Step-IsExclusive step (exclusive r)

    bounded : (w : World) → IsExclusive w → w.inside ≤ 1
    bounded w e = elim (Bool-cases w.spin_lock.flag) [
      | inl k ↦ ground (arith, k, e)
      | inr k ↦ ground (arith, k, e)
    ]
