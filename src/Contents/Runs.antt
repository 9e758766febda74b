-- ===== src/Contents/Runs.antt =====
-- The runs of blocks that `resize_inode` scans, marks and copies.
use os_course_design.Prelude.{
  ℕ, zero, suc, ◌+◌, ◌-◌, ◌≤◌, ◌<◌, ◌≡◌, refl, ap, ◌∙◌, inl, inr, true, false, ◌&&◌, arith, ltb,
  leb, ◌==◌, ==_iff, if◌then◌else◌, Bool-cases, fun_ext, add32, u32_mod,
}
use os_course_design.Disk.{Block, write_at}
use os_course_design.Cache.Pages.{view}
use os_course_design.Bitmap.{FreeBitmap, is_block_free, is_block_allocated, mark_block_used}
use os_course_design.Bitmap
use os_course_design.Bitmap.Status.{
  set_block_status-IsValid, total_blocks-set_block_status, is_block_free-set_block_status,
}
use os_course_design.INode.{INodeManager, Env}
use os_course_design.INode.Table.{
  IsSound, Gives, with_cache, read_cache_lem, write_cache_lem, Holds-trans, Holds-ext,
}
use os_course_design.Contents.{is_contiguous, mark_blocks, move_blocks}

sum_fits : (m n : ℕ) → m + n < u32_mod → add32 m n ≡ m + n
sum_fits m n h = omega arith

unallocated_inside :
    (fb : FreeBitmap) (k : ℕ) → is_block_allocated fb k ≡ false → k < fb.total_blocks
unfolding is_block_allocated
unallocated_inside fb k h = ground arith

-- A run that was found free ends on the disk.
pub is_contiguous-inside :
    (fb : FreeBitmap) (start i rounds : ℕ)
    → fb.total_blocks < u32_mod
    → start + i ≤ fb.total_blocks
    → is_contiguous fb start i rounds ≡ true
    → start + i + rounds ≤ fb.total_blocks
unfolding is_contiguous
is_contiguous-inside fb start i zero small h t = omega arith
is_contiguous-inside fb start i (suc rounds) small h t =
    elim (Bool-cases (is_block_allocated fb (start + i))) [
      | inl taken ↦ absurd (ground (arith, rw (sum_fits start i (omega arith), taken) at t))
      | inr free ↦ omega (
        arith,
        is_contiguous-inside fb start (i + 1) rounds small
            (omega (arith, unallocated_inside fb (start + i) free))
            (rw (sum_fits start i (omega arith), free) at t),
      )
    ]

pub mark_block_used-IsValid :
    (fb : FreeBitmap) (k : ℕ)
    → Bitmap.IsValid fb
    → Bitmap.IsValid (mark_block_used fb k)
      × ((mark_block_used fb k).total_blocks ≡ fb.total_blocks)
unfolding mark_block_used
mark_block_used-IsValid fb k v = elim (Bool-cases (leb fb.total_blocks k)) [
  | inl t ↦ rw t (v, refl)
  | inr t ↦ rw t (set_block_status-IsValid fb k true v, total_blocks-set_block_status fb k true)
]

pub mark_blocks-IsValid :
    (fb : FreeBitmap) (start i rounds : ℕ)
    → Bitmap.IsValid fb
    → Bitmap.IsValid (mark_blocks fb start i rounds)
      × ((mark_blocks fb start i rounds).total_blocks ≡ fb.total_blocks)
unfolding mark_blocks
mark_blocks-IsValid fb start i zero v = (v, refl)
mark_blocks-IsValid fb start i (suc rounds) v =
    let (v', same) = mark_block_used-IsValid fb (add32 start i) v in
    let (v'', same') =
      mark_blocks-IsValid (mark_block_used fb (add32 start i)) start (i + 1) rounds v' in
    (v'', same' ∙ same)

-- What was allocated stays so, and the run is allocated.
mark_block_used-taken :
    (fb : FreeBitmap) (k b : ℕ)
    → Bitmap.IsValid fb
    → is_block_free fb b ≡ false
    → is_block_free (mark_block_used fb k) b ≡ false
unfolding mark_block_used
mark_block_used-taken fb k b v h = ground (arith, is_block_free-set_block_status fb k true b v)

mark_block_used_self :
    (fb : FreeBitmap) (k : ℕ)
    → Bitmap.IsValid fb
    → k < fb.total_blocks
    → is_block_free (mark_block_used fb k) k ≡ false
unfolding mark_block_used
mark_block_used_self fb k v h = ground (arith, is_block_free-set_block_status fb k true k v)

pub mark_blocks-taken :
    (fb : FreeBitmap) (start i rounds b : ℕ)
    → Bitmap.IsValid fb
    → is_block_free fb b ≡ false
    → is_block_free (mark_blocks fb start i rounds) b ≡ false
unfolding mark_blocks
mark_blocks-taken fb start i zero b v h = h
mark_blocks-taken fb start i (suc rounds) b v h =
    mark_blocks-taken (mark_block_used fb (add32 start i)) start (i + 1) rounds b
      (mark_block_used-IsValid fb (add32 start i) v).0
      (mark_block_used-taken fb (add32 start i) b v h)

pub mark_blocks-marked :
    (fb : FreeBitmap) (start i rounds b : ℕ)
    → Bitmap.IsValid fb
    → start + i + rounds ≤ fb.total_blocks
    → start + i ≤ b
    → b < start + i + rounds
    → is_block_free (mark_blocks fb start i rounds) b ≡ false
unfolding mark_blocks
mark_blocks-marked fb start i zero b v inside lo hi = absurd (omega arith)
mark_blocks-marked fb start i (suc rounds) b v inside lo hi =
    let (v', same) = mark_block_used-IsValid fb (add32 start i) v in
    elim (Bool-cases (b == start + i)) [
      | inl here ↦
          mark_blocks-taken (mark_block_used fb (add32 start i)) start (i + 1) rounds b v' (
            rw (sum_fits start i (omega (arith, v.fits)), (==_iff b (start + i)).0 here)
              (mark_block_used_self fb (start + i) v (omega arith)))
      | inr later ↦
          mark_blocks-marked (mark_block_used fb (add32 start i)) start (i + 1) rounds b v'
            (omega (arith, same)) (ground (arith, later)) (omega arith)
    ]

-- The memory with `rounds` blocks copied from one run to another, from block `i` on.
abbrev pub copied : (ℕ → Block) → ℕ → ℕ → ℕ → ℕ → ℕ → Block
copied m from to i rounds b =
    if leb (to + i) b && ltb b (to + i + rounds) then m (from + (b - to)) else m b

copied-step :
    (m : ℕ → Block) (from to i rounds b : ℕ)
    → (if leb (to + i + suc rounds) (from + i) then true else leb (from + i + suc rounds) (to + i))
      ≡ true
    → copied (write_at m (to + i) (m (from + i))) from to (i + 1) rounds b
      ≡ copied m from to i (suc rounds) b
copied-step m from to i rounds b apart = elim (Bool-cases (b == to + i)) [
  | inl same ↦ ground (arith, ap (λ k. m (from + k)) (here b))
  | inr other ↦ ground arith
]
  where
    here : (k : ℕ) → to + i - to ≡ i
    here k = omega arith

pub move_blocks_lem :
    (e : Env) (from to i rounds : ℕ) (s : INodeManager)
    → IsSound s.cache
    → from + i + rounds ≤ s.cache.disk.total_blocks
    → to + i + rounds ≤ s.cache.disk.total_blocks
    → (if leb (to + i + rounds) (from + i) then true else leb (from + i + rounds) (to + i)) ≡ true
    → Gives s (copied (view s.cache) from to i rounds) (move_blocks e from to i rounds s) tt
unfolding move_blocks
move_blocks_lem e from to i zero s v a b apart =
    (s.cache, refl, record { sound = v; total = refl; memory_is = λ b. ground arith })
move_blocks_lem e from to i (suc rounds) s v a b apart =
    let (c, got, holds) = read_cache_lem e (from + i) s v (omega arith) in
    let (c', wrote, holds') =
      write_cache_lem e (to + i) (view s.cache (from + i)) (with_cache c s) holds.sound
        (omega (arith, holds.total)) (v.whole (from + i) (omega arith)) in
    let (c'', rest, holds'') =
      move_blocks_lem e from to (i + 1) rounds (with_cache c' s) holds'.sound
        (omega (arith, holds.total, holds'.total)) (omega (arith, holds.total, holds'.total))
        (ground arith) in
    (
      c'',
      rw
          (
            sum_fits from i (omega (arith, v.cached.coherent.fits)),
            got,
            sum_fits to i (omega (arith, v.cached.coherent.fits)),
            wrote,
            rest,
          )
          refl,
      Holds-ext s.cache c'' _ _
          (Holds-trans s.cache c c'' _ _ holds (Holds-trans c c' c'' _ _ holds' holds''))
          (λ b.
            ap (λ (f : ℕ → Block). copied f from to (i + 1) rounds b)
              (fun_ext (λ k.
                holds'.memory_is k
                ∙ ap (λ (f : ℕ → Block). write_at f (to + i) (view s.cache (from + i)) k)
                    (fun_ext holds.memory_is)))
            ∙ copied-step (view s.cache) from to i rounds b apart),
    )
