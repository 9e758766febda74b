-- ===== src/Bitmap/Allocate.antt =====
-- `allocate_block` and `allocate_consecutive_blocks`.
use os_course_design.Prelude.{
  ℕ, zero, suc, ◌+◌, ◌≤◌, ◌<◌, ◌≡◌, ◌⊎◌, refl, ◌∙◌, inl, inr, true, false, ◌&&◌, ◌||◌, Option, none,
  some, arith, ltb, leb, ◌==◌, if◌then◌else◌, Bool-cases, uint32_max, tally-le, tally_positive,
}
use os_course_design.Bitmap.{
  FreeBitmap, is_block_free, find_first_free_block, find_consecutive_free_blocks, set_block_status,
  allocate_block, mark_run, allocate_consecutive_blocks, IsValid,
}
use os_course_design.Bitmap.Status.{
  free_in_range, set_block_status-IsValid, total_blocks-set_block_status,
  is_block_free-set_block_status, free_blocks-set_allocated,
}
use os_course_design.Bitmap.Search.{
  NoneFree, RunFree, IsFirstFree, IsFirstRun, find_first_free_block_lem,
  find_consecutive_free_blocks_lem,
}

-- A call that fails leaves the table, and then no block from 2 on is free. One that succeeds takes
-- the lowest such block and no other.
abbrev pub AllocatesBlock : FreeBitmap → FreeBitmap → Option ℕ → Type 0
AllocatesBlock fb fb' none = (fb' ≡ fb) × NoneFree fb 2 fb.total_blocks
AllocatesBlock fb fb' (some r) =
    IsFirstFree fb 2 r
    × IsValid fb'
    × (fb'.total_blocks ≡ fb.total_blocks)
    × (fb'.free_blocks + 1 ≡ fb.free_blocks)
    × ((j : ℕ) → is_block_free fb' j ≡ (if j == r then false else is_block_free fb j))

none_free : (fb : FreeBitmap) → IsValid fb → fb.free_blocks ≡ 0 → NoneFree fb 2 fb.total_blocks
none_free fb v e j l h = elim (Bool-cases (is_block_free fb j)) [
  | inl t ↦
      absurd (omega (arith, v.counted, tally_positive (is_block_free fb) j fb.total_blocks h t))
  | inr t ↦ t
]

-- On a well-formed table, `allocate_block` fails exactly if no block from 2 on is free, and then
-- leaves the table. Otherwise it returns the lowest such block, which becomes allocated: every other
-- block keeps its status, the counter falls by one and the table stays well formed.
pub allocate_block-AllocatesBlock :
    (fb : FreeBitmap) → IsValid fb → AllocatesBlock fb (allocate_block fb).0 (allocate_block fb).1
unfolding allocate_block
allocate_block-AllocatesBlock fb v = elim (Bool-cases (fb.free_blocks == 0)) [
  | inl e ↦ rw e (refl, none_free fb v (ground arith))
  | inr e ↦ elim (find_first_free_block_lem fb) [
    | inl (m, h) ↦ rw (e, m) (refl, h)
    | inr r ↦
        let k = find_first_free_block fb in
        let in_range = free_in_range fb k r.1 in
        let ne : (k == uint32_max) ≡ false = ground (arith, v.fits) in
        rw (e, ne)
          (
            r,
            set_block_status-IsValid fb k true v,
            total_blocks-set_block_status fb k true,
            free_blocks-set_allocated fb k v r.1,
            λ j. ground (arith, is_block_free-set_block_status fb k true j v),
          )
  ]
]

-- The table after `count` blocks from `start` on were taken.
pub record MarksRun (fb : FreeBitmap) (start count : ℕ) (fb' : FreeBitmap) : Type 0 where
  pub valid : IsValid fb'
  pub total : fb'.total_blocks ≡ fb.total_blocks
  pub fewer : fb'.free_blocks + count ≡ fb.free_blocks
  pub marked :
      (j : ℕ)
      → is_block_free fb' j
        ≡ (if leb start j && ltb j (start + count) then false else is_block_free fb j)

run_first :
    (fb : FreeBitmap) (start count : ℕ)
    → RunFree fb start (suc count)
    → is_block_free fb start ≡ true
run_first fb start count run =
    let e : start + 0 ≡ start = omega arith in rw e at (run 0 (omega arith))

run_rest :
    (fb : FreeBitmap) (start count : ℕ)
    → IsValid fb
    → RunFree fb start (suc count)
    → RunFree (set_block_status fb start true) (start + 1) count
run_rest fb start count v run i h =
    let e : start + 1 + i ≡ start + (i + 1) = omega arith in
    rw e (
      ground (
        arith,
        is_block_free-set_block_status fb start true (start + (i + 1)) v,
        run (i + 1) (omega arith),
      ))

MarksRun-step :
    (fb fb' : FreeBitmap) (start count : ℕ)
    → IsValid fb
    → is_block_free fb start ≡ true
    → MarksRun (set_block_status fb start true) (start + 1) count fb'
    → MarksRun fb start (suc count) fb'
MarksRun-step fb fb' start count v first rest = record {
  valid = rest.valid;
  total = rest.total ∙ total_blocks-set_block_status fb start true;
  fewer = omega (arith, rest.fewer, free_blocks-set_allocated fb start v first);
  marked = λ j. ground (
    arith,
    rest.marked j,
    is_block_free-set_block_status fb start true j v,
    free_in_range fb start first,
  );
}

mark_run-MarksRun :
    (fb : FreeBitmap) (start count : ℕ)
    → IsValid fb
    → RunFree fb start count
    → MarksRun fb start count (mark_run fb start count)
unfolding mark_run
mark_run-MarksRun fb start zero v run = record {
  valid = v;
  total = refl;
  fewer = omega arith;
  marked = λ j. ground arith;
}
mark_run-MarksRun fb start (suc count) v run =
    MarksRun-step fb _ start count v (run_first fb start count run) (
      mark_run-MarksRun (set_block_status fb start true) (start + 1) count
        (set_block_status-IsValid fb start true v) (run_rest fb start count v run))

-- What `allocate_consecutive_blocks` may do to the table, by its answer.
abbrev pub AllocatesRun : FreeBitmap → ℕ → FreeBitmap → Option ℕ → Type 0
AllocatesRun fb count fb' none =
    (fb' ≡ fb)
    × ((count ≡ 0) ⊎ ((s : ℕ) → 2 ≤ s → s + count ≤ fb.total_blocks → ¬ RunFree fb s count))
AllocatesRun fb count fb' (some s) =
    (0 < count) × (s + count ≤ fb.total_blocks) × IsFirstRun fb count 2 s × MarksRun fb s count fb'

-- A run needs as many free blocks.
too_many :
    (fb : FreeBitmap) (count s : ℕ) → IsValid fb → fb.free_blocks < count → ¬ RunFree fb s count
too_many fb count s v h run = absurd (omega (arith, (mark_run-MarksRun fb s count v run).fewer))

-- On a well-formed table, `allocate_consecutive_blocks` fails exactly if `count` is 0 or no run of
-- `count` free blocks starts at block 2 or later, and then leaves the table. Otherwise it returns the
-- start of the first such run, which becomes allocated: every other block keeps its status, the
-- counter falls by `count` and the table stays well formed.
pub allocate_consecutive_blocks-AllocatesRun :
    (fb : FreeBitmap) (count : ℕ)
    → IsValid fb
    → AllocatesRun fb count
        (allocate_consecutive_blocks fb count).0
        (allocate_consecutive_blocks fb count).1
unfolding allocate_consecutive_blocks
allocate_consecutive_blocks-AllocatesRun fb count v =
    elim (find_consecutive_free_blocks_lem fb count v) [
      | inl (inl e, m) ↦
          let t : ((count == 0 || ltb fb.free_blocks count)
                || find_consecutive_free_blocks fb count == uint32_max)
              ≡ true =
            ground arith in
          rw t (refl, inl e)
      | inl (inr e, m) ↦
          let t : ((count == 0 || ltb fb.free_blocks count)
                || find_consecutive_free_blocks fb count == uint32_max)
              ≡ true =
            ground arith in
          rw t (refl, inr (λ s l h. too_many fb count s v e))
      | inr (pos, le, inl (m, h)) ↦
          let t : ((count == 0 || ltb fb.free_blocks count)
                || find_consecutive_free_blocks fb count == uint32_max)
              ≡ true =
            ground arith in
          rw t (refl, inr (λ s l k. h s l (omega arith)))
      | inr (pos, le, inr (b, r)) ↦
          let bound = tally-le (is_block_free fb) fb.total_blocks in
          let t : ((count == 0 || ltb fb.free_blocks count)
                || find_consecutive_free_blocks fb count == uint32_max)
              ≡ false =
            ground (arith, v.counted, v.fits) in
          rw t (pos, omega (arith, v.counted), r, mark_run-MarksRun fb _ count v r.1)
    ]
