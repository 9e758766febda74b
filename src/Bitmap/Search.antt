-- ===== src/Bitmap/Search.antt =====
-- The two searches of the free-block table: `find_first_free_block`, and
-- `find_consecutive_free_blocks` with its skip over a run that is interrupted.
use os_course_design.Prelude.{
  ℕ, zero, suc, ◌+◌, ◌-◌, ◌≤◌, ◌<◌, ◌≡◌, ◌⊎◌, refl, inl, inr, true, false, ◌||◌, Option, none, some,
  arith, ltb, leb, ◌==◌, Bool-cases, Option-cases, uint32_max, sub32, tally-le, subst, leb→le,
}
use os_course_design.Bitmap.{
  FreeBitmap, is_block_free, first_free, find_first_free_block, first_used, find_run,
  find_consecutive_free_blocks, IsValid,
}

-- No block from `lo` up to `hi` is free.
abbrev pub NoneFree : FreeBitmap → ℕ → ℕ → Type 0
NoneFree fb lo hi = (j : ℕ) → lo ≤ j → j < hi → is_block_free fb j ≡ false

-- All `count` blocks from `start` on are free.
abbrev pub RunFree : FreeBitmap → ℕ → ℕ → Type 0
RunFree fb start count = (i : ℕ) → i < count → is_block_free fb (start + i) ≡ true

-- The block is free, and the first that is from `lo` on.
abbrev pub IsFirstFree : FreeBitmap → ℕ → ℕ → Type 0
IsFirstFree fb lo r = (lo ≤ r) × (is_block_free fb r ≡ true) × NoneFree fb lo r

NoneFree-step :
    (fb : FreeBitmap) (b hi hi' : ℕ)
    → is_block_free fb b ≡ false
    → NoneFree fb (b + 1) hi
    → hi' ≤ hi
    → NoneFree fb b hi'
NoneFree-step fb b hi hi' e h le j l k = elim (Bool-cases (j == b)) [
  | inl t ↦ ground arith
  | inr t ↦ h j (ground arith) (omega arith)
]

first_free_lem :
    (fb : FreeBitmap) (rounds block : ℕ)
    → ((first_free fb rounds block ≡ uint32_max) × NoneFree fb block (block + rounds))
      ⊎ IsFirstFree fb block (first_free fb rounds block)
unfolding first_free
first_free_lem fb zero block = inl (refl, λ j l h. absurd (omega arith))
first_free_lem fb (suc rounds) block = elim (Bool-cases (is_block_free fb block)) [
  | inl e ↦ rw e (inr (omega arith, e, λ j l h. absurd (omega arith)))
  | inr e ↦ rw e (elim (first_free_lem fb rounds (block + 1)) [
    | inl (m, h) ↦ inl (m, NoneFree-step fb block _ _ e h (omega arith))
    | inr (l, f, h) ↦ inr (omega arith, f, NoneFree-step fb block _ _ e h (omega arith))
  ])
]

-- `find_first_free_block` answers UINT32_MAX exactly when no block from 2 on is free, and the
-- lowest free block from 2 on otherwise.
pub find_first_free_block_lem :
    (fb : FreeBitmap)
    → ((find_first_free_block fb ≡ uint32_max) × NoneFree fb 2 fb.total_blocks)
      ⊎ IsFirstFree fb 2 (find_first_free_block fb)
unfolding find_first_free_block
find_first_free_block_lem fb = elim (first_free_lem fb (fb.total_blocks - 2) 2) [
  | inl (m, h) ↦ inl (m, λ j l k. h j l (omega arith))
  | inr r ↦ inr r
]

-- The inner loop: no offset, and all are free; or the offset of the first block in use.
abbrev FirstUsed : FreeBitmap → ℕ → ℕ → ℕ → Option ℕ → Type 0
FirstUsed fb start lo hi none = (i : ℕ) → lo ≤ i → i < hi → is_block_free fb (start + i) ≡ true
FirstUsed fb start lo hi (some r) = (lo ≤ r) × (r < hi) × (is_block_free fb (start + r) ≡ false)

first_used_lem :
    (fb : FreeBitmap) (start rounds i hi : ℕ)
    → i + rounds ≡ hi
    → FirstUsed fb start i hi (first_used fb start rounds i)
unfolding first_used
first_used_lem fb start zero i hi e = λ j l h. absurd (omega arith)
first_used_lem fb start (suc rounds) i hi e = elim (Bool-cases (is_block_free fb (start + i))) [
  | inr t ↦ rw t (omega arith, omega arith, t)
  | inl t ↦ rw t (
      go (first_used fb start rounds (i + 1)) t
        (first_used_lem fb start rounds (i + 1) hi (omega arith)))
]
  where
    go :
        (o : Option ℕ)
        → is_block_free fb (start + i) ≡ true
        → FirstUsed fb start (i + 1) hi o
        → FirstUsed fb start i hi o
    go none t h =
        λ j l k. elim (Bool-cases (j == i)) [ inl s ↦ ground arith | inr s ↦ h j (ground arith) k ]
    go (some r) t h = (omega arith, h.1, h.2)

-- No run of `count` free blocks starts from `lo` up to `hi`.
abbrev pub NoRun : FreeBitmap → ℕ → ℕ → ℕ → Type 0
NoRun fb count lo hi = (s : ℕ) → lo ≤ s → s < hi → ¬ RunFree fb s count

-- A block in use at offset `i` rules out every start up to it.
NoRun-skip :
    (fb : FreeBitmap) (count start i hi : ℕ)
    → i < count
    → is_block_free fb (start + i) ≡ false
    → NoRun fb count (start + i + 1) hi
    → NoRun fb count start hi
NoRun-skip fb count start i hi h e none_after s l k run = elim (Bool-cases (ltb (start + i) s)) [
  | inl t ↦ none_after s (ground arith) k run
  | inr t ↦
      let at : s + (start + i - s) ≡ start + i = ground arith in
      let free = run (start + i - s) (ground arith) in
      let free' : is_block_free fb (start + i) ≡ true = rw at at free in ground arith
]

-- The start is that of the first run of `count` free blocks from `lo` on.
abbrev pub IsFirstRun : FreeBitmap → ℕ → ℕ → ℕ → Type 0
IsFirstRun fb count lo s = (lo ≤ s) × RunFree fb s count × NoRun fb count lo s

-- What a search for a run from `lo` on answers, where `limit` is the last possible start.
abbrev pub RunResult : FreeBitmap → ℕ → ℕ → ℕ → ℕ → Type 0
RunResult fb count limit lo r =
    ((r ≡ uint32_max) × NoRun fb count lo (limit + 1)) ⊎ ((r ≤ limit) × IsFirstRun fb count lo r)

RunResult-skip :
    (fb : FreeBitmap) (count limit start i r : ℕ)
    → i < count
    → is_block_free fb (start + i) ≡ false
    → RunResult fb count limit (start + i + 1) r
    → RunResult fb count limit start r
RunResult-skip fb count limit start i r h e (inl (m, n)) =
    inl (m, NoRun-skip fb count start i (limit + 1) h e n)
RunResult-skip fb count limit start i r h e (inr (b, (l, f, n))) =
    inr (b, (omega arith, f, NoRun-skip fb count start i r h e n))

find_run_lem :
    (fb : FreeBitmap) (count limit fuel start : ℕ)
    → limit < start + fuel
    → RunResult fb count limit start (find_run fb count limit fuel start)
unfolding find_run
find_run_lem fb count limit zero start h = inl (refl, λ s l k. absurd (omega arith))
find_run_lem fb count limit (suc fuel) start h = elim (Bool-cases (leb start limit)) [
  | inr t ↦ rw t (inl (refl, λ s l k. absurd (ground arith)))
  | inl t ↦ rw t (elim (Option-cases (first_used fb start count 0)) [
    | inl e ↦
        let all_free =
          subst (FirstUsed fb start 0 count) e
            (first_used_lem fb start count 0 count (omega arith)) in
        rw e (
          inr (
            leb→le _ _ t,
            (omega arith, (λ i k. all_free i (omega arith) k), λ s l k. absurd (omega arith)),
          ))
    | inr (i, e) ↦
        let used =
          subst (FirstUsed fb start 0 count) e
            (first_used_lem fb start count 0 count (omega arith)) in
        rw e (
          RunResult-skip fb count limit start i _ used.1 used.2
            (find_run_lem fb count limit fuel (start + i + 1) (omega arith)))
  ])
]

-- On a well-formed table `find_consecutive_free_blocks` answers UINT32_MAX for a count of 0 or one
-- above the free blocks; otherwise it answers UINT32_MAX exactly when no run of `count` free
-- blocks starts at block 2 or later, and the start of the first such run if there is one.
pub find_consecutive_free_blocks_lem :
    (fb : FreeBitmap) (count : ℕ)
    → IsValid fb
    → (((count ≡ 0) ⊎ (fb.free_blocks < count))
        × (find_consecutive_free_blocks fb count ≡ uint32_max))
      ⊎ ((0 < count)
          × (count ≤ fb.free_blocks)
          × RunResult fb count (fb.total_blocks - count) 2 (find_consecutive_free_blocks fb count))
unfolding find_consecutive_free_blocks
find_consecutive_free_blocks_lem fb count v =
    elim (Bool-cases (count == 0 || ltb fb.free_blocks count)) [
      | inl e ↦ rw e (inl (ground arith, refl))
      | inr e ↦ rw e (
          inr (
            ground arith,
            ground arith,
            rw (limit_eq (ground arith))
                (find_run_lem fb count (fb.total_blocks - count) fb.total_blocks 2 (omega arith)),
          ))
    ]
  where
    limit_eq : count ≤ fb.free_blocks → sub32 fb.total_blocks count ≡ fb.total_blocks - count
    limit_eq h = omega (arith, v.counted, v.fits, tally-le (is_block_free fb) fb.total_blocks)
