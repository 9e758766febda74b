-- ===== src/INode/Table.antt =====
-- The inode table through the cache: what `read_inode` and `write_inode` answer and leave.
use os_course_design.Prelude.{
  ℕ, ◌≤◌, ◌<◌, ◌≡◌, ◌≢◌, refl, ap, ◌∙◌, inl, inr, true, Option, some, arith, ltb→lt, lt→ltb, ne→==,
  and_left, fun_ext, ◌==◌, Bool-cases, length, overwrite, length-overwrite,
}
use os_course_design.Disk.{Block, write_at}
use os_course_design.Cache.{CacheManager}
use os_course_design.Cache
use os_course_design.Cache.Pages
use os_course_design.Cache.Pages.{view}
use os_course_design.Cache.Access.{read_block-Stands, write_block-Stands}
use os_course_design.INode.{
  INode, INodeManager, Env, read_cache, write_cache, read_inode, write_inode, is_used, table_block,
  max_inodes, inode_bytes, table_offset,
}
use os_course_design.INode.Layout.{
  IsInode, node_at, put_node, node_at-put_node, node_at-put_node_other,
}

-- The cache is well-formed, its disk holds the inode table, and its memory is made of whole blocks.
pub record IsSound (c : CacheManager) : Type 0 where
  pub cached : Pages.IsValid c
  pub room : 8 ≤ c.disk.total_blocks
  pub whole : (b : ℕ) → b < c.disk.total_blocks → length (view c b) ≡ 4096

-- A sound cache over as large a disk, with this memory.
pub record Holds (c : CacheManager) (memory : ℕ → Block) (c' : CacheManager) : Type 0 where
  pub sound : IsSound c'
  pub total : c'.disk.total_blocks ≡ c.disk.total_blocks
  pub memory_is : (b : ℕ) → view c' b ≡ memory b

abbrev pub with_cache : CacheManager → INodeManager → INodeManager
with_cache c s = record s { cache = c }

-- The call succeeds with this value, and changes nothing but the cache, to one with this memory.
abbrev pub Gives : {A : Type 0} → INodeManager → (ℕ → Block) → INodeManager × Option A → A → Type 0
Gives s memory r a = (c : CacheManager) × (r ≡ (with_cache c s, some a)) × Holds s.cache memory c

-- On a sound cache, a block of the disk is read, and the memory stays.
pub read_cache_lem :
    (e : Env) (b : ℕ) (s : INodeManager)
    → IsSound s.cache
    → b < s.cache.disk.total_blocks
    → Gives s (view s.cache) (read_cache e b s) (view s.cache b)
unfolding read_cache
read_cache_lem e b s v h =
    let (got, st) = read_block-Stands s.cache e.now b v.cached h in
    (
      (Cache.read_block s.cache e.now b).0,
      rw got refl,
      record {
        sound = record {
          cached = st.valid;
          room = rw st.total (v.room);
          whole = λ k l. rw (st.memory_is k) (v.whole k (omega (arith, st.total)));
        };
        total = st.total;
        memory_is = st.memory_is;
      },
    )

-- On a sound cache, a block of the disk is written, and the others stay.
pub write_cache_lem :
    (e : Env) (b : ℕ) (buffer : Block) (s : INodeManager)
    → IsSound s.cache
    → b < s.cache.disk.total_blocks
    → length buffer ≡ 4096
    → Gives s (write_at (view s.cache) b buffer) (write_cache e b buffer s) tt
unfolding write_cache
write_cache_lem e b buffer s v h long =
    let (ok, st) = write_block-Stands s.cache e.now b buffer v.cached h in
    (
      (Cache.write_block s.cache e.now b buffer).0,
      rw ok refl,
      record {
        sound = record {
          cached = st.valid;
          room = rw st.total (v.room);
          whole = λ k l. rw (st.memory_is k) (written k (omega (arith, st.total)));
        };
        total = st.total;
        memory_is = st.memory_is;
      },
    )
  where
    written :
        (k : ℕ) → k < s.cache.disk.total_blocks → length (write_at (view s.cache) b buffer k) ≡ 4096
    written k l = elim (Bool-cases (k == b)) [ inl t ↦ rw t long | inr t ↦ rw t (v.whole k l) ]

table_in_disk :
    (s : INodeManager) (id : ℕ)
    → IsSound s.cache
    → id < max_inodes
    → table_block id < s.cache.disk.total_blocks
table_in_disk s id v h = omega (arith, v.room)

pub read_inode_lem :
    (e : Env) (id : ℕ) (s : INodeManager)
    → IsSound s.cache
    → is_used s id ≡ true
    → Gives s (view s.cache) (read_inode e id s) (node_at (view s.cache) id)
unfolding read_inode node_at
read_inode_lem e id s v used =
    let h : id < max_inodes = ltb→lt id max_inodes (and_left _ _ used) in
    let (c, got, holds) = read_cache_lem e (table_block id) s v (table_in_disk s id v h) in
    (c, rw (used, got) refl, holds)

pub Holds-trans :
    (c c' c'' : CacheManager) (m m' : ℕ → Block) → Holds c m c' → Holds c' m' c'' → Holds c m' c''
Holds-trans c c' c'' m m' a b = record {
  sound = b.sound;
  total = b.total ∙ a.total;
  memory_is = b.memory_is;
}

-- The memory may be written as any that agrees with it.
pub Holds-ext :
    (c c' : CacheManager) (m m' : ℕ → Block) → Holds c m c' → ((b : ℕ) → m b ≡ m' b) → Holds c m' c'
Holds-ext c c' m m' a h = record {
  sound = a.sound;
  total = a.total;
  memory_is = λ b. a.memory_is b ∙ h b;
}

pub write_inode_lem :
    (e : Env) (id : ℕ) (n : INode) (s : INodeManager)
    → IsSound s.cache
    → id < max_inodes
    → Gives s (put_node e (view s.cache) id n) (write_inode e id n s) tt
unfolding write_inode put_node
write_inode_lem e id n s v h =
    let inside = table_in_disk s id v h in
    let (c, got, holds) = read_cache_lem e (table_block id) s v inside in
    let (c', wrote, holds') =
      write_cache_lem e (table_block id)
        (overwrite (view s.cache (table_block id)) (table_offset id) (inode_bytes e n))
        (with_cache c s) holds.sound (omega (arith, inside, holds.total))
        (length-overwrite (view s.cache (table_block id)) (table_offset id) (inode_bytes e n)
          ∙ v.whole (table_block id) inside) in
    (
      c',
      rw (lt→ltb id max_inodes h, got, wrote) refl,
      Holds-ext s.cache c' _ _ (Holds-trans s.cache c c' _ _ holds holds') (λ b.
          ap
            (λ (f : ℕ → Block).
              write_at f (table_block id)
                (overwrite (view s.cache (table_block id)) (table_offset id) (inode_bytes e n)) b)
            (fun_ext holds.memory_is)),
    )

-- The inode that is read after a change of the memory.
node_after :
    (e : Env) (j : ℕ) (s : INodeManager) (c : CacheManager) (m : ℕ → Block)
    → is_used s j ≡ true
    → Holds s.cache m c
    → (read_inode e j (with_cache c s)).1 ≡ some (node_at m j)
node_after e j s c m used holds =
    let (c', got, _) = read_inode_lem e j (with_cache c s) holds.sound used in
    rw got (ap (λ (f : ℕ → Block). some (node_at f j)) (fun_ext holds.memory_is))

-- With a sound cache, `write_inode` of an inode whose fields fit into their bytes, to an id in use,
-- answers true; `read_inode` of the id then returns that inode, of any other id in use what it
-- returned before, and no block but the id's block of the table has changed.
pub read_inode-write_inode :
    (e e' : Env) (id : ℕ) (n : INode) (s : INodeManager)
    → IsSound s.cache
    → is_used s id ≡ true
    → IsInode n
    → ((write_inode e id n s).1 ≡ some tt)
      × ((read_inode e' id (write_inode e id n s).0).1 ≡ some n)
      × ((j : ℕ)
          → j ≢ id
          → is_used s j ≡ true
          → (read_inode e' j (write_inode e id n s).0).1 ≡ (read_inode e' j s).1)
      × ((b : ℕ) → b ≢ table_block id → view (write_inode e id n s).0.cache b ≡ view s.cache b)
unfolding put_node
read_inode-write_inode e e' id n s v used fits =
    let (c, wrote, holds) = write_inode_lem e id n s v small in
    rw wrote (
      refl,
      node_after e' id s c _ used holds
          ∙ ap some (node_at-put_node e (view s.cache) id n whole fits small),
      λ j ne used'.
          let (c', got, _) = read_inode_lem e' j s v used' in
          rw got (
            node_after e' j s c _ used' holds
            ∙ ap some (node_at-put_node_other e (view s.cache) id n whole fits small j ne)),
      λ b ne. holds.memory_is b ∙ rw (ne→== b (table_block id) ne) refl,
    )
  where
    small : id < max_inodes
    small = ltb→lt id max_inodes (and_left _ _ used)

    whole : (b : ℕ) → b < 8 → length (view s.cache b) ≡ 4096
    whole b l = v.whole b (omega (arith, v.room))
