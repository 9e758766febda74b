-- ===== src/Contents/Resize.antt =====
-- `resize_inode` when a file grows, or keeps its number of blocks.
use os_course_design.Prelude.{
  ℕ, ◌+◌, ◌^◌, ◌<◌, ◌≡◌, ◌≢◌, ap, sym, ◌∙◌, Bool, true, false, List, some, arith, ne→==, fun_ext,
}
use os_course_design.Disk.{Block}
use os_course_design.Cache.Pages.{view}
use os_course_design.Bitmap.{
  FreeBitmap, is_block_free, allocate_consecutive_blocks, free_consecutive_blocks,
}
use os_course_design.Bitmap
use os_course_design.INode.{INode, INodeManager, Env, is_used, table_block, write_inode}
use os_course_design.INode.Layout.{IsInode, node_at, put_node, node_at-put_node}
use os_course_design.INode.Table.{IsSound, with_cache, write_inode_lem}
use os_course_design.Contents.RoundTrip.{IsPlaced}

-- The state a file is in between two calls: its inode is read from the first block of the table, its blocks
-- are on the disk and allocated in the bitmap, and cache and bitmap are well-formed.
pub record IsReady (s : INodeManager) (id : ℕ) (n : INode) : Type 0 where
  pub sound : IsSound s.cache
  pub used : is_used s id ≡ true
  pub low : id < 39
  pub node : node_at (view s.cache) id ≡ n
  pub fits : IsInode n
  pub placed : IsPlaced n id s.cache.disk.total_blocks
  pub bitmap_valid : Bitmap.IsValid s.bitmap
  pub same_size : s.bitmap.total_blocks ≡ s.cache.disk.total_blocks
  pub owned : (j : ℕ) → j < n.block_count → is_block_free s.bitmap (n.start_block + j) ≡ false

-- The file is ready with the new size and the old blocks' contents; no block that was allocated has changed
-- but the inode's block of the table.
pub record Resizes (s : INodeManager) (id : ℕ) (n : INode) (size : ℕ) (s' : INodeManager)
    (n' : INode) : Type 0 where
  pub ready : IsReady s' id n'
  pub new_size : n'.size ≡ size
  pub same_kind : n'.kind ≡ n.kind
  pub kept :
      (j : ℕ)
      → j < n.block_count
      → view s'.cache (n'.start_block + j) ≡ view s.cache (n.start_block + j)
  pub others :
      (b : ℕ)
      → is_block_free s.bitmap b ≡ false
      → b ≢ table_block id
      → view s'.cache b ≡ view s.cache b
  pub same_used : s'.inode_used ≡ s.inode_used
  pub same_directories : s'.directory_cache ≡ s.directory_cache

-- The inode that is written at the end.
abbrev pub resized : Env → INode → ℕ → ℕ → ℕ → INode
resized e n start blocks size = record n {
  start_block = start;
  block_count = blocks;
  size = size;
  modify_time = e.now;
}

pub resized-IsInode :
    (e : Env) (n : INode) (start blocks size : ℕ)
    → IsInode n
    → start < 2 ^ 32
    → blocks < 2 ^ 32
    → size < 2 ^ 32
    → e.now < 2 ^ 64
    → IsInode (resized e n start blocks size)
resized-IsInode e n start blocks size fits a b c clock = record {
  id_fits = fits.id_fits;
  size_fits = c;
  start_fits = a;
  count_fits = b;
  parent_fits = fits.parent_fits;
  created_fits = fits.created_fits;
  modified_fits = clock;
  name_length = fits.name_length;
}

-- The state before the inode is written: the blocks are where they shall be.
pub record Prepared (s : INodeManager) (id : ℕ) (n : INode) (s' : INodeManager) (n' : INode)
    : Type 0 where
  pub sound : IsSound s'.cache
  pub total : s'.cache.disk.total_blocks ≡ s.cache.disk.total_blocks
  pub fits : IsInode n'
  pub placed : IsPlaced n' id s.cache.disk.total_blocks
  pub bitmap_valid : Bitmap.IsValid s'.bitmap
  pub bitmap_total : s'.bitmap.total_blocks ≡ s.bitmap.total_blocks
  pub owned : (j : ℕ) → j < n'.block_count → is_block_free s'.bitmap (n'.start_block + j) ≡ false
  pub same_kind : n'.kind ≡ n.kind
  pub kept :
      (j : ℕ)
      → j < n.block_count
      → view s'.cache (n'.start_block + j) ≡ view s.cache (n.start_block + j)
  pub others : (b : ℕ) → is_block_free s.bitmap b ≡ false → view s'.cache b ≡ view s.cache b
  pub same_used : s'.inode_used ≡ s.inode_used
  pub same_directories : s'.directory_cache ≡ s.directory_cache

pub settle :
    (e : Env) (id size : ℕ) (n n' : INode) (s s' : INodeManager)
    → IsReady s id n
    → Prepared s id n s' n'
    → n'.size ≡ size
    → (s'' : INodeManager) × (write_inode e id n' s' ≡ (s'', some tt)) × Resizes s id n size s'' n'
unfolding put_node
settle e id size n n' s s' r p new_size =
    let (c, wrote, holds) = write_inode_lem e id n' s' p.sound (omega (arith, r.low)) in
    (
      with_cache c s',
      wrote,
      record {
        ready = record {
          sound = holds.sound;
          used =
              ap (λ (u : List Bool). is_used (record s { inode_used = u }) id) p.same_used ∙ r.used;
          low = r.low;
          node =
              ap (λ (f : ℕ → Block). node_at f id) (fun_ext holds.memory_is)
              ∙ node_at-put_node e (view s'.cache) id n'
                  (λ b l. p.sound.whole b (omega (arith, p.sound.room))) p.fits
                  (omega (arith, r.low));
          fits = p.fits;
          placed = record {
            covered = p.placed.covered;
            tight = p.placed.tight;
            on_disk = omega (arith, p.placed.on_disk, holds.total, p.total);
            behind = p.placed.behind;
          };
          bitmap_valid = p.bitmap_valid;
          same_size = p.bitmap_total ∙ r.same_size ∙ sym p.total ∙ sym holds.total;
          owned = p.owned;
        };
        new_size = new_size;
        same_kind = p.same_kind;
        kept = λ j l.
            holds.memory_is (n'.start_block + j)
            ∙ rw (ne→== (n'.start_block + j) (table_block id) (omega (arith, p.placed.behind)))
                (p.kept j l);
        others = λ b taken table.
            holds.memory_is b ∙ rw (ne→== b (table_block id) table) (p.others b taken);
        same_used = p.same_used;
        same_directories = p.same_directories;
      },
    )
