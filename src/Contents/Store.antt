-- ===== src/Contents/Store.antt =====
-- Contents that are stored in a file that is ready for them, and fetched from it.
use os_course_design.Prelude.{
  ℕ, ◌+◌, ◌^◌, ◌<◌, ◌≡◌, ◌≢◌, refl, ap, sym, subst, ◌∙◌, false, ◌&&◌, List, some, arith, ltb, leb,
  ne→==, length, fun_ext,
}
use os_course_design.Disk.{Block}
use os_course_design.Cache.{CacheManager}
use os_course_design.Cache.Pages.{view}
use os_course_design.INode.{INode, INodeManager, Env, table_block}
use os_course_design.INode.Layout.{put_node, node_at}
use os_course_design.INode.Table.{Holds, Gives, with_cache}
use os_course_design.Contents.{write_inode_data, read_inode_data}
use os_course_design.Contents.Loops.{written}
use os_course_design.Contents.RoundTrip.{
  Stores, stamped, stamped-IsInode, stamped-IsPlaced, written-Stores, write_inode_data_lem,
  read_inode_data_lem,
}
use os_course_design.Contents.Resize.{IsReady}

-- A file stays ready while the memory stays.
pub IsReady-Holds :
    (s : INodeManager) (id : ℕ) (n : INode) (c : CacheManager)
    → IsReady s id n
    → Holds s.cache (view s.cache) c
    → IsReady (with_cache c s) id n
IsReady-Holds s id n c r h = record {
  sound = h.sound;
  used = r.used;
  low = r.low;
  node = ap (λ (f : ℕ → Block). node_at f id) (fun_ext h.memory_is) ∙ r.node;
  fits = r.fits;
  placed = record {
    covered = r.placed.covered;
    tight = r.placed.tight;
    on_disk = omega (arith, r.placed.on_disk, h.total);
    behind = r.placed.behind;
  };
  bitmap_valid = r.bitmap_valid;
  same_size = r.same_size ∙ sym h.total;
  owned = r.owned;
}

-- The contents are in the file, and what else was allocated is as before.
pub record Stored (s : INodeManager) (id : ℕ) (n : INode) (content : List ℕ) (s' : INodeManager)
    : Type 0 where
  pub ready : IsReady s' id n
  pub contents : Stores (view s'.cache) id n content
  pub others :
      (b : ℕ)
      → b ≢ table_block id
      → (leb n.start_block b && ltb b (n.start_block + n.block_count)) ≡ false
      → view s'.cache b ≡ view s.cache b
  pub same_directories : s'.directory_cache ≡ s.directory_cache

pub write_inode_data-Stored :
    (e : Env) (id : ℕ) (n : INode) (content : List ℕ) (s : INodeManager)
    → IsReady s id n
    → n.size ≡ length content
    → e.now < 2 ^ 64
    → (s' : INodeManager) × (write_inode_data e id content s ≡ (s', some tt))
      × Stored s id (stamped e n) content s'
unfolding put_node
write_inode_data-Stored e id n content s r size clock =
    let (c, wrote, holds) =
      write_inode_data_lem e id n content s r.sound r.used r.node size r.placed in
    let stores =
      written-Stores e id n content (view s.cache) s.cache.disk.total_blocks
        (λ b l. r.sound.whole b (omega (arith, r.sound.room))) r.fits clock (omega (arith, r.low))
        r.placed size in
    let same : view c
        ≡ put_node e (written (view s.cache) n.start_block content 0 n.block_count) id
            (stamped e n) =
      fun_ext holds.memory_is in
    let stores' : Stores (view c) id (stamped e n) content =
      subst (λ m. Stores m id (stamped e n) content) (sym same) stores in
    (
      with_cache c s,
      wrote,
      record {
        ready = record {
          sound = holds.sound;
          used = r.used;
          low = r.low;
          node = stores'.node;
          fits = stamped-IsInode e n r.fits clock;
          placed =
              stamped-IsPlaced e n id s.cache.disk.total_blocks c.disk.total_blocks r.placed
                holds.total;
          bitmap_valid = r.bitmap_valid;
          same_size = r.same_size ∙ sym holds.total;
          owned = r.owned;
        };
        contents = stores';
        others = λ b table own.
            holds.memory_is b ∙ rw (ne→== b (table_block id) table, outside b own) refl;
        same_directories = refl;
      },
    )
  where
    outside :
        (b : ℕ)
        → (leb n.start_block b && ltb b (n.start_block + n.block_count)) ≡ false
        → (leb (n.start_block + 0) b && ltb b (n.start_block + 0 + n.block_count)) ≡ false
    outside b own = ground (arith, own)

pub read_inode_data-Stored :
    (e : Env) (id : ℕ) (n : INode) (content : List ℕ) (s : INodeManager)
    → IsReady s id n
    → Stores (view s.cache) id n content
    → Gives s (view s.cache) (read_inode_data e id s) content
read_inode_data-Stored e id n content s r stores =
    read_inode_data_lem e id n content s (view s.cache) r.sound r.used (λ b. refl) stores r.fits
      r.placed
