-- ===== src/Tree/Create.antt =====
-- What `create_inode` does when the disk is full.
use os_course_design.Prelude.{
  ℕ, zero, suc, ◌+◌, ◌≤◌, ◌≡◌, ◌⊎◌, refl, ap, sym, Bool, true, false, List, [], ◌∷◌, none, some,
  arith, inl, inr, Bool-cases, Option-cases, leb, get_or, set, drop, leb→le,
}
use os_course_design.Bitmap.{FreeBitmap, allocate_consecutive_blocks}
use os_course_design.Bitmap.Allocate.{AllocatesRun, allocate_consecutive_blocks-AllocatesRun}
use os_course_design.Bitmap
use os_course_design.INode.{INodeManager, Env, max_inodes}
use os_course_design.Contents.{allocate}
use os_course_design.Tree.{
  create_inode, free_slot, allocate_new, set_used, blocks_of_kind, minus_one, minus_two,
}

-- The slot that is found is not in use.
free_slot-free :
    (used : List Bool) (i id : ℕ)
    → free_slot used i ≡ some id
    → (k : ℕ) × (id ≡ i + k) × (get_or used k false ≡ false)
unfolding free_slot
free_slot-free [] i id h = absurd (ground (arith, h))
free_slot-free (true ∷ used) i id h =
    let (k, e, free) = free_slot-free used (i + 1) id h in (suc k, omega arith, free)
free_slot-free (false ∷ used) i id h = (0, ground (arith, h), refl)

-- A slot that was not in use is marked and given back.
set_back :
    (used : List Bool) (id : ℕ)
    → get_or used id false ≡ false
    → set (set used id true) id false ≡ used
set_back [] id h = refl
set_back (u ∷ used) zero h = ap (λ k. k ∷ used) (sym h)
set_back (u ∷ used) (suc id) h = ap (◌∷◌ u) (set_back used id h)

slot_back :
    (used : List Bool) (id : ℕ)
    → free_slot (drop 1 used) 1 ≡ some id
    → set (set used id true) id false ≡ used
slot_back [] id h = refl
slot_back (u ∷ used) id h =
    let (k, e, free) = free_slot-free used 1 id h in
    let same : id ≡ suc k = omega (arith, e) in rw same (ap (◌∷◌ u) (set_back used k free))

-- The allocation fails: the slot is given back.
allocate_new-full :
    (e : Env) (id parent_id kind : ℕ) (name : List ℕ) (size : ℕ) (s : INodeManager)
    → Bitmap.IsValid s.bitmap
    → (allocate_consecutive_blocks s.bitmap (blocks_of_kind kind size)).1 ≡ none
    → set (set s.inode_used id true) id false ≡ s.inode_used
    → allocate_new e id parent_id kind name size (set_used id true s) ≡ (s, minus_two)
unfolding allocate_new set_used allocate
allocate_new-full e id parent_id kind name size s v full back =
    let law = allocate_consecutive_blocks-AllocatesRun s.bitmap (blocks_of_kind kind size) v in
    let fb = (allocate_consecutive_blocks s.bitmap (blocks_of_kind kind size)).0 in
    let (kept, _) : AllocatesRun s.bitmap (blocks_of_kind kind size) fb none = rw full at law in
    rw (full, allocate_new, kept, back) refl

-- When the bitmap has no run of blocks for it, `create_inode` answers -1 or -2 and changes nothing.
pub create_inode-full :
    (e : Env) (parent_id kind : ℕ) (name : List ℕ) (size : ℕ) (s : INodeManager)
    → Bitmap.IsValid s.bitmap
    → (allocate_consecutive_blocks s.bitmap (blocks_of_kind kind size)).1 ≡ none
    → ((create_inode e parent_id kind name size s ≡ (s, minus_one))
        × ((max_inodes ≤ s.inode_count) ⊎ (free_slot (drop 1 s.inode_used) 1 ≡ none)))
      ⊎ (create_inode e parent_id kind name size s ≡ (s, minus_two))
unfolding create_inode
create_inode-full e parent_id kind name size s v full =
    elim (Bool-cases (leb max_inodes s.inode_count)) [
      | inl many ↦ inl (rw many refl, inl (leb→le max_inodes s.inode_count many))
      | inr few ↦ elim (Option-cases (free_slot (drop 1 s.inode_used) 1)) [
        | inl none_free ↦ inl (rw (few, none_free) refl, inr none_free)
        | inr (id, found) ↦ inr (
            rw (few, found)
              (allocate_new-full e id parent_id kind name size s v full
                (slot_back s.inode_used id found)))
      ]
    ]
