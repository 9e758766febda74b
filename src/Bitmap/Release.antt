-- ===== src/Bitmap/Release.antt =====
-- `free_block`, `free_consecutive_blocks` and `mark_block_used`.
use os_course_design.Prelude.{
  ℕ, zero, suc, ◌+◌, ◌-◌, ◌≤◌, ◌<◌, ◌≡◌, refl, ◌∙◌, subst, inl, inr, true, false, min, ◌&&◌, ◌||◌,
  Option, some, arith, ltb, leb, ◌==◌, if◌then◌else◌, Bool-cases, tally-ext, add32, u32_mod,
}
use os_course_design.Bitmap.{
  FreeBitmap, is_block_free, is_block_allocated, set_block_status, free_block, free_run,
  free_consecutive_blocks, mark_block_used, allocate_consecutive_blocks, IsValid,
}
use os_course_design.Bitmap.Status.{
  set_block_status-IsValid, total_blocks-set_block_status, is_block_free-set_block_status,
  set_block_status-same,
}
use os_course_design.Bitmap.Allocate.{AllocatesRun, allocate_consecutive_blocks-AllocatesRun}

-- The same blocks are free in both tables.
pub record SameBlocks (fb fb' : FreeBitmap) : Type 0 where
  pub total : fb'.total_blocks ≡ fb.total_blocks
  pub free : (j : ℕ) → is_block_free fb' j ≡ is_block_free fb j

free_blocks-SameBlocks :
    (fb fb' : FreeBitmap)
    → IsValid fb
    → IsValid fb'
    → SameBlocks fb fb'
    → fb'.free_blocks ≡ fb.free_blocks
free_blocks-SameBlocks fb fb' v v' s =
    ground (arith, v.counted, v'.counted, s.total, tally-ext _ _ fb.total_blocks (λ j h. s.free j))

-- The table after the blocks from `lo` up to `hi` were given back, 0 and 1 excepted.
pub record Frees (fb : FreeBitmap) (lo hi : ℕ) (fb' : FreeBitmap) : Type 0 where
  pub valid : IsValid fb'
  pub total : fb'.total_blocks ≡ fb.total_blocks
  pub freed :
      (j : ℕ)
      → is_block_free fb' j ≡ (
          if (leb lo j && ltb j hi) && (leb 2 j && ltb j fb.total_blocks)
          then true
          else is_block_free fb j)

free_step : FreeBitmap → ℕ → FreeBitmap
free_step fb block = if leb 2 block then set_block_status fb block false else fb

free_step-Frees :
    (fb : FreeBitmap) (block : ℕ) → IsValid fb → Frees fb block (block + 1) (free_step fb block)
unfolding free_step
free_step-Frees fb block v = elim (Bool-cases (leb 2 block)) [
  | inl e ↦ rw e (record {
    valid = set_block_status-IsValid fb block false v;
    total = total_blocks-set_block_status fb block false;
    freed = λ j. ground (arith, is_block_free-set_block_status fb block false j v);
  })
  | inr e ↦ rw e (record { valid = v; total = refl; freed = λ j. ground arith })
]

Frees-trans :
    (fb fb' fb'' : FreeBitmap) (lo mid hi : ℕ)
    → lo ≤ mid
    → mid ≤ hi
    → Frees fb lo mid fb'
    → Frees fb' mid hi fb''
    → Frees fb lo hi fb''
Frees-trans fb fb' fb'' lo mid hi l h a b = record {
  valid = b.valid;
  total = b.total ∙ a.total;
  freed = λ j. ground (arith, a.total, a.freed j, b.freed j);
}

free_run-Frees :
    (fb : FreeBitmap) (block rounds : ℕ)
    → IsValid fb
    → Frees fb block (block + rounds) (free_run fb block rounds)
unfolding free_run free_step
free_run-Frees fb block zero v = record { valid = v; total = refl; freed = λ j. ground arith }
free_run-Frees fb block (suc rounds) v =
    let first = free_step-Frees fb block v in
    let e : block + 1 + rounds ≡ block + suc rounds = omega arith in
    Frees-trans fb _ _ block (block + 1) (block + suc rounds) (omega arith) (omega arith) first
      (rw e at (free_run-Frees (free_step fb block) (block + 1) rounds first.valid))

-- On a well-formed table, `free_consecutive_blocks` frees exactly the blocks of the disk from
-- `start` up to `start + count`, except the reserved blocks 0 and 1, provided that the sum does not
-- wrap at 2 ^ 32; every other block keeps its status, and the table stays well formed.
pub free_consecutive_blocks-Frees :
    (fb : FreeBitmap) (start count : ℕ)
    → IsValid fb
    → start + count < u32_mod
    → Frees fb start (start + count) (free_consecutive_blocks fb start count)
unfolding free_consecutive_blocks
free_consecutive_blocks-Frees fb start count v h =
    elim (Bool-cases (leb fb.total_blocks start || count == 0)) [
      | inl e ↦ rw e (record { valid = v; total = refl; freed = λ j. ground arith })
      | inr e ↦
          rw e (
            widen (free_run-Frees fb start (min (add32 start count) fb.total_blocks - start) v)
              refl)
    ]
  where
    widen :
        {fb' : FreeBitmap} {n : ℕ}
        → Frees fb start (start + n) fb'
        → n ≡ min (add32 start count) fb.total_blocks - start
        → Frees fb start (start + count) fb'
    widen f e = record { valid = f.valid; total = f.total; freed = λ j. ground (arith, f.freed j) }

-- Giving back what `allocate_consecutive_blocks` took restores the table: the same blocks are free as
-- before, and the counter is what it was.
pub free-allocate_consecutive_blocks :
    (fb fb' : FreeBitmap) (count s : ℕ)
    → IsValid fb
    → allocate_consecutive_blocks fb count ≡ (fb', some s)
    → SameBlocks fb (free_consecutive_blocks fb' s count)
      × ((free_consecutive_blocks fb' s count).free_blocks ≡ fb.free_blocks)
free-allocate_consecutive_blocks fb fb' count s v e =
    (same, free_blocks-SameBlocks fb _ v frees.valid same)
  where
    taken : AllocatesRun fb count fb' (some s)
    taken =
        subst (λ (p : FreeBitmap × Option ℕ). AllocatesRun fb count p.0 p.1) e
          (allocate_consecutive_blocks-AllocatesRun fb count v)

    frees : Frees fb' s (s + count) (free_consecutive_blocks fb' s count)
    frees = free_consecutive_blocks-Frees fb' s count taken.3.valid (omega (arith, v.fits, taken.1))

    was_free : (j : ℕ) → s ≤ j → j < s + count → is_block_free fb j ≡ true
    was_free j l h =
        let at : s + (j - s) ≡ j = omega arith in rw at at (taken.2.1 (j - s) (omega arith))

    same : SameBlocks fb (free_consecutive_blocks fb' s count)
    same = record {
      total = frees.total ∙ taken.3.total;
      free = λ j.
          ground
            (arith, frees.freed j, taken.3.marked j, was_free j, taken.1, taken.2.0, taken.3.total);
    }

free_block_inside :
    (fb : FreeBitmap) (k : ℕ)
    → 2 ≤ k
    → k < fb.total_blocks
    → free_block fb k ≡ set_block_status fb k false
unfolding free_block
free_block_inside fb k l h = ground arith

-- In a well-formed table, freeing a data block makes it free and no other block; freeing it a second
-- time changes nothing.
pub free_block_lem :
    (fb : FreeBitmap) (k j : ℕ)
    → IsValid fb
    → 2 ≤ k
    → k < fb.total_blocks
    → (is_block_free (free_block fb k) j ≡ (j == k || is_block_free fb j))
      × (free_block (free_block fb k) k ≡ free_block fb k)
free_block_lem fb k j v l h = rw (free_block_inside fb k l h) (
  ground (arith, is_block_free-set_block_status fb k false j v),
  free_block_inside once k l in_range
      ∙ set_block_status-same once k (set_block_status-IsValid fb k false v) in_range false
          (ground (arith, is_block_free-set_block_status fb k false k v)),
)
  where
    once : FreeBitmap
    once = set_block_status fb k false

    in_range : k < once.total_blocks
    in_range = omega (arith, total_blocks-set_block_status fb k false)

-- Marking a block as used makes it allocated, valid or not, and no block outside the disk is ever
-- reported as free.
pub is_block_allocated-mark_block_used :
    (fb : FreeBitmap) (k j : ℕ)
    → IsValid fb
    → is_block_allocated (mark_block_used fb k) j ≡ (j == k || is_block_allocated fb j)
unfolding is_block_allocated mark_block_used
is_block_allocated-mark_block_used fb k j v =
    ground
      (arith, is_block_free-set_block_status fb k true j v, total_blocks-set_block_status fb k true)
