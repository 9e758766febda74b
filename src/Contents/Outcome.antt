-- ===== src/Contents/Outcome.antt =====
-- What `resize_inode` comes to when the file does not lose blocks.
use os_course_design.Prelude.{
  ℕ, ◌+◌, ◌*◌, ◌-◌, ◌^◌, ◌≤◌, ◌<◌, ◌≡◌, ◌⊎◌, refl, ap, sym, inl, inr, true, false, ◌&&◌, Option,
  none, some, arith, ltb, ltb→lt, lt→ltb, ◌==◌, ==_iff, and_left, and_right, Bool-cases,
  Option-cases, fun_ext, add32,
}
use os_course_design.Disk.{Block}
use os_course_design.Cache.{CacheManager}
use os_course_design.Cache.Pages.{view}
use os_course_design.Bitmap.{FreeBitmap, allocate_consecutive_blocks}
use os_course_design.Bitmap.Search.{RunFree}
use os_course_design.Bitmap.Allocate.{AllocatesRun, allocate_consecutive_blocks-AllocatesRun}
use os_course_design.Paths.{calculate_blocks_needed}
use os_course_design.Paths.Blocks.{calculate_blocks_needed-covers}
use os_course_design.INode.{INode, INodeManager, Env, Done}
use os_course_design.INode.Table.{Holds, with_cache, read_inode_lem, Holds-trans, Holds-ext}
use os_course_design.Contents.Runs.{move_blocks_lem, copied}
use os_course_design.Contents.Resize.{IsReady, Resizes, resized, settle}
use os_course_design.Contents.Grow.{Prepared-same, Prepared-extended, Prepared-moved, runs_apart}
use os_course_design.Contents.{
  resize_inode, resize_node, extend, move, is_contiguous, allocate, release_blocks,
}

-- No block is asked for, or no free run is long enough.
abbrev pub NoRoom : FreeBitmap → ℕ → Type 0
NoRoom fb blocks =
    (blocks ≡ 0) ⊎ ((k : ℕ) → 2 ≤ k → k + blocks ≤ fb.total_blocks → ¬ RunFree fb k blocks)

-- The call answers false, since no run of free blocks is long enough, and memory and bitmap stay.
pub record Refuses (s : INodeManager) (size : ℕ) (r : INodeManager × Option Done) : Type 0 where
  pub failure : r.1 ≡ none
  pub holds : Holds s.cache (view s.cache) r.0.cache
  pub same_bitmap : r.0.bitmap ≡ s.bitmap
  pub no_run : NoRoom s.bitmap (calculate_blocks_needed size)

-- It answers true and leaves the file ready with the new size.
abbrev pub Accepts : INodeManager → ℕ → INode → ℕ → INodeManager × Option Done → Type 0
Accepts s id n size r =
    (s' : INodeManager) × (n' : INode) × (r ≡ (s', some tt)) × Resizes s id n size s' n'

module _ (e : Env) (s : INodeManager) (id size : ℕ) (n : INode) (r : IsReady s id n)
    (clock : e.now < 2 ^ 64) (size_fits : size < 2 ^ 32)
    (covered : size ≤ calculate_blocks_needed size * 4096)
    (tight : calculate_blocks_needed size * 4096 < size + 4096)
    (grows : n.block_count ≤ calculate_blocks_needed size) (c : CacheManager)
    (holds : Holds s.cache (view s.cache) c) where
  abbrev blocks : ℕ
  blocks = calculate_blocks_needed size

  same-Accepts :
      n.block_count ≡ blocks → Accepts s id n size (resize_node e id n size blocks (with_cache c s))
  unfolding resize_node
  same-Accepts same =
      let p = Prepared-same e s id size blocks n r clock size_fits covered tight c holds same in
      let (s', wrote, done) = settle e id size n _ s _ r p refl in
      (
        s',
        resized e n n.start_block n.block_count size,
        rw ((==_iff blocks n.block_count).1 (sym same)) wrote,
        done,
      )

  extended-Accepts :
      n.block_count < blocks
      → is_contiguous s.bitmap (add32 n.start_block n.block_count) 0 (blocks - n.block_count) ≡ true
      → Accepts s id n size (resize_node e id n size blocks (with_cache c s))
  unfolding resize_node extend
  extended-Accepts more free =
      let p =
        Prepared-extended e s id size blocks n r clock size_fits covered tight c holds more free in
      let (s', wrote, done) = settle e id size n _ s _ r p refl in
      (
        s',
        resized e n n.start_block blocks size,
        rw (other, lt→ltb n.block_count blocks more, free) wrote,
        done,
      )
    where
      other : (blocks == n.block_count) ≡ false
      other = ground (arith, more)

  moved_outcome :
      (blocks == n.block_count) ≡ false
      → (ltb n.block_count blocks
          && is_contiguous s.bitmap (add32 n.start_block n.block_count) 0 (blocks - n.block_count))
        ≡ false
      → Refuses s size (resize_node e id n size blocks (with_cache c s))
        ⊎ Accepts s id n size (resize_node e id n size blocks (with_cache c s))
  unfolding resize_node move allocate release_blocks
  moved_outcome other taken =
      let law = allocate_consecutive_blocks-AllocatesRun s.bitmap blocks r.bitmap_valid in
      let fb = (allocate_consecutive_blocks s.bitmap blocks).0 in
      elim (Option-cases (allocate_consecutive_blocks s.bitmap blocks).1) [
        | inl full ↦
            let (kept, no_run) : AllocatesRun s.bitmap blocks fb none = rw full at law in
            inl (record {
              failure = rw (other, taken, full) refl;
              holds = rw (other, taken, full) holds;
              same_bitmap = rw (other, taken, full) kept;
              no_run = no_run;
            })
        | inr (start, found) ↦
            let run : AllocatesRun s.bitmap blocks fb (some start) = rw found at law in
            inr (moved_accepts start found run)
      ]
    where
      moved_accepts :
          (start : ℕ)
          → (allocate_consecutive_blocks s.bitmap blocks).1 ≡ some start
          → AllocatesRun s.bitmap blocks
              (allocate_consecutive_blocks s.bitmap blocks).0
              (some start)
          → Accepts s id n size (resize_node e id n size blocks (with_cache c s))
      moved_accepts start found run =
          let fb = (allocate_consecutive_blocks s.bitmap blocks).0 in
          let (c', copy, holds') =
            move_blocks_lem e n.start_block start 0 n.block_count
              (record s { cache = c; bitmap = fb }) holds.sound
              (omega (arith, r.placed.on_disk, holds.total))
              (omega (arith, run.1, grows, r.same_size, holds.total))
              (runs_apart e s id size blocks n r clock size_fits covered tight grows start fb
                run) in
          let copies : Holds s.cache (copied (view s.cache) n.start_block start 0 n.block_count)
              c' =
            Holds-ext s.cache c' _ _ (Holds-trans s.cache c c' _ _ holds holds') (λ b.
              ap (λ (f : ℕ → Block). copied f n.start_block start 0 n.block_count b)
                (fun_ext holds.memory_is)) in
          let p =
            Prepared-moved e s id size blocks n r clock size_fits covered tight grows start fb run
              c' copies in
          let (s', wrote, done) = settle e id size n _ s _ r p refl in
          (s', resized e n start blocks size, rw (other, taken, found, copy, wrote) refl, done)

  node_outcome :
      Refuses s size (resize_node e id n size blocks (with_cache c s))
      ⊎ Accepts s id n size (resize_node e id n size blocks (with_cache c s))
  node_outcome = elim (Bool-cases (blocks == n.block_count)) [
    | inl same ↦ inr (same-Accepts (sym ((==_iff blocks n.block_count).0 same)))
    | inr other ↦
        elim (Bool-cases (
          ltb n.block_count blocks
          && is_contiguous s.bitmap (add32 n.start_block n.block_count) 0
              (blocks - n.block_count))) [
                | inl free ↦ inr (
                    extended-Accepts (ltb→lt n.block_count blocks (and_left _ _ free))
                      (and_right _ _ free))
                | inr taken ↦ moved_outcome other taken
              ]
  ]

-- For a file whose inode stands in the first block of the table, and a size up to 2 ^ 32 - 4096 that needs at least
-- as many blocks as the file has: `resize_inode` either answers false, with memory and bitmap as they were, because
-- no long enough run of blocks is free, or answers true and leaves the file ready with the new size, its blocks
-- with the contents they had, and no other allocated block changed but the inode's block of the table.
pub resize_inode-Resizes :
    (e : Env) (id size : ℕ) (n : INode) (s : INodeManager)
    → IsReady s id n
    → e.now < 2 ^ 64
    → size ≤ 2 ^ 32 - 4096
    → n.block_count ≤ calculate_blocks_needed size
    → Refuses s size (resize_inode e id size s) ⊎ Accepts s id n size (resize_inode e id size s)
unfolding resize_inode
resize_inode-Resizes e id size n s r clock small grows =
    let (c, got, holds) = read_inode_lem e id s r.sound r.used in
    rw (r.used, got, r.node)
      (elim (calculate_blocks_needed-covers size (omega arith)) [
        | inr (large, _) ↦ absurd (omega arith)
        | inl (_, covered, tight) ↦
            node_outcome e s id size n r clock (omega arith) covered tight grows c holds
      ])
