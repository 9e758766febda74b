-- ===== src/Contents/RoundTrip.antt =====
-- `read_inode_data` after `write_inode_data`.
use os_course_design.Prelude.{
  ℕ, ◌+◌, ◌*◌, ◌-◌, ◌^◌, ◌≤◌, ◌<◌, ◌≡◌, ◌≢◌, refl, ap, ◌∙◌, inl, inr, true, false, ◌&&◌, List, some,
  arith, ltb, leb, ◌==◌, ==_iff, ne→==, ltb→lt, and_left, Bool-cases, length, get_or, replicate,
  length-replicate, bytes_ext, fun_ext,
}
use os_course_design.Disk.{Block}
use os_course_design.Cache.Pages.{view}
use os_course_design.INode.{
  INode, INodeManager, Env, ◌>>=◌, is_used, table_block, read_inode, write_inode, max_inodes,
}
use os_course_design.INode.Layout.{IsInode, node_at, put_node, node_at-put_node}
use os_course_design.INode.Table.{
  IsSound, Gives, with_cache, read_inode_lem, write_inode_lem, Holds-trans, Holds-ext,
}
use os_course_design.Contents.{
  block_of, write_blocks, sized_inode, read_inode_data, write_inode_data,
}
use os_course_design.Contents.Loops.{
  written, write_blocks_lem, gathered, read_blocks_lem, length-block_of,
}
use os_course_design.Contents.Gather.{length-gathered, get_or-gathered}

-- The blocks of an inode hold as many bytes as its size asks for, and lie on the disk behind the block of
-- the table that the inode stands in.
pub record IsPlaced (n : INode) (id total : ℕ) : Type 0 where
  pub covered : n.size ≤ n.block_count * 4096
  pub tight : n.block_count * 4096 < n.size + 4096
  pub on_disk : n.start_block + n.block_count ≤ total
  pub behind : table_block id < n.start_block

-- The inode with a new time.
abbrev pub stamped : Env → INode → INode
stamped e n = record n { modify_time = e.now }

pub stamped-IsInode : (e : Env) (n : INode) → IsInode n → e.now < 2 ^ 64 → IsInode (stamped e n)
stamped-IsInode e n fits clock = record {
  id_fits = fits.id_fits;
  size_fits = fits.size_fits;
  start_fits = fits.start_fits;
  count_fits = fits.count_fits;
  parent_fits = fits.parent_fits;
  created_fits = fits.created_fits;
  modified_fits = clock;
  name_length = fits.name_length;
}

pub stamped-IsPlaced :
    (e : Env) (n : INode) (id total total' : ℕ)
    → IsPlaced n id total
    → total' ≡ total
    → IsPlaced (stamped e n) id total'
stamped-IsPlaced e n id total total' placed same = record {
  covered = placed.covered;
  tight = placed.tight;
  on_disk = omega (arith, placed.on_disk);
  behind = placed.behind;
}

-- A memory in which the inode's blocks hold the contents.
pub record Stores (m : ℕ → Block) (id : ℕ) (n : INode) (content : List ℕ) : Type 0 where
  pub node : node_at m id ≡ n
  pub size : n.size ≡ length content
  pub blocks : (j : ℕ) → j < n.block_count → m (n.start_block + j) ≡ block_of content j

pub read_inode_data_lem :
    (e : Env) (id : ℕ) (n : INode) (content : List ℕ) (s : INodeManager) (m : ℕ → Block)
    → IsSound s.cache
    → is_used s id ≡ true
    → ((b : ℕ) → view s.cache b ≡ m b)
    → Stores m id n content
    → IsInode n
    → IsPlaced n id s.cache.disk.total_blocks
    → Gives s m (read_inode_data e id s) content
unfolding read_inode_data
read_inode_data_lem e id n content s m v used is st fits placed =
    let (c, got, holds) = read_inode_lem e id s v used in
    let (c', rest, holds') =
      read_blocks_lem e n (replicate n.size 0) 0 n.block_count (with_cache c s) m holds.sound
        (λ b. holds.memory_is b ∙ is b) (omega (arith, placed.on_disk, holds.total)) in
    (
      c',
      rw (got, found) (rest ∙ ap (λ (t : List ℕ). (with_cache c' s, some t)) whole),
      Holds-trans s.cache c c' _ _ holds holds',
    )
  where
    found : node_at (view s.cache) id ≡ n
    found = ap (λ (f : ℕ → Block). node_at f id) (fun_ext is) ∙ st.node

    buffer : List ℕ
    buffer = replicate n.size 0

    long : length buffer ≡ length content
    long = length-replicate n.size 0 ∙ st.size

    whole : gathered m n.start_block n.size buffer 0 n.block_count ≡ content
    whole =
        bytes_ext (gathered m n.start_block n.size buffer 0 n.block_count) content
          (length-gathered m n.start_block n.size buffer 0 n.block_count ∙ long)
          (λ k l.
            ap (λ z. get_or (gathered m n.start_block z buffer 0 n.block_count) k 0) st.size
            ∙ byte k (
                omega
                  (arith, l, length-gathered m n.start_block n.size buffer 0 n.block_count, long)))
      where
        inside :
            (k : ℕ)
            → k < length content
            → (leb (0 * 4096) k && ltb k ((0 + n.block_count) * 4096)) ≡ true
        inside k l = ground (arith, placed.covered, st.size)

        byte :
            (k : ℕ)
            → k < length content
            → get_or (gathered m n.start_block (length content) buffer 0 n.block_count) k 0
              ≡ get_or content k 0
        byte k l =
            get_or-gathered m n.start_block content buffer 0 n.block_count k long
              (λ j a b. st.blocks j (omega arith)) (omega (arith, placed.tight, st.size))
              (omega (arith, fits.size_fits, st.size)) l
            ∙ rw (inside k l) refl

-- The end of `write_inode_data`: the blocks are written, then the inode with a new time.
pub write_data_lem :
    (e : Env) (id : ℕ) (n : INode) (content : List ℕ) (s : INodeManager)
    → IsSound s.cache
    → id < max_inodes
    → n.start_block + n.block_count ≤ s.cache.disk.total_blocks
    → Gives s
        (put_node e (written (view s.cache) n.start_block content 0 n.block_count) id (stamped e n))
        (◌>>=◌ (write_blocks e n content 0 n.block_count) (λ _. write_inode e id (stamped e n)) s)
        tt
unfolding put_node
write_data_lem e id n content s v small inside =
    let (c, wrote, holds) = write_blocks_lem e n content 0 n.block_count s v (omega arith) in
    let (c', put, holds') = write_inode_lem e id (stamped e n) (with_cache c s) holds.sound small in
    (
      c',
      rw (wrote, put) refl,
      Holds-ext s.cache c' _ _ (Holds-trans s.cache c c' _ _ holds holds')
          (λ b. ap (λ (f : ℕ → Block). put_node e f id (stamped e n) b) (fun_ext holds.memory_is)),
    )

module _ (e : Env) (id : ℕ) (n : INode) (content : List ℕ) (m : ℕ → Block) (total : ℕ)
    (whole : (b : ℕ) → b < 8 → length (m b) ≡ 4096) (fits : IsInode n) (clock : e.now < 2 ^ 64)
    (small : id < max_inodes) (placed : IsPlaced n id total) (size : n.size ≡ length content) where
  abbrev stored : ℕ → Block
  stored = written m n.start_block content 0 n.block_count

  stored_whole : (b : ℕ) → b < 8 → length (stored b) ≡ 4096
  stored_whole b l =
      elim (Bool-cases (leb (n.start_block + 0) b && ltb b (n.start_block + 0 + n.block_count))) [
        | inl t ↦ rw t (length-block_of content (b - n.start_block))
        | inr t ↦ rw t (whole b l)
      ]

  -- The memory after it holds the contents.
  pub written-Stores : Stores (put_node e stored id (stamped e n)) id (stamped e n) content
  unfolding put_node
  written-Stores = record {
    node =
        node_at-put_node e stored id (stamped e n) stored_whole (stamped-IsInode e n fits clock)
          small;
    size = size;
    blocks = λ j l. rw (apart j, inside j l) (ap (block_of content) (back j));
  }
    where
      apart : (j : ℕ) → (n.start_block + j == table_block id) ≡ false
      apart j = ne→== _ _ (omega (arith, placed.behind))

      inside :
          (j : ℕ)
          → j < n.block_count
          → (leb (n.start_block + 0) (n.start_block + j)
              && ltb (n.start_block + j) (n.start_block + 0 + n.block_count))
            ≡ true
      inside j l = ground arith

      back : (j : ℕ) → n.start_block + j - n.start_block ≡ j
      back j = omega arith

-- Without a change of size, `write_inode_data` writes the blocks and the inode's time.
pub write_inode_data_lem :
    (e : Env) (id : ℕ) (n : INode) (content : List ℕ) (s : INodeManager)
    → IsSound s.cache
    → is_used s id ≡ true
    → node_at (view s.cache) id ≡ n
    → n.size ≡ length content
    → IsPlaced n id s.cache.disk.total_blocks
    → Gives s
        (put_node e (written (view s.cache) n.start_block content 0 n.block_count) id (stamped e n))
        (write_inode_data e id content s)
        tt
unfolding write_inode_data sized_inode
write_inode_data_lem e id n content s v used node size placed =
    let (c, got, holds) = read_inode_lem e id s v used in
    let (c', rest, holds') =
      write_data_lem e id n content (with_cache c s) holds.sound
        (ltb→lt id max_inodes (and_left _ _ used)) (omega (arith, placed.on_disk, holds.total)) in
    (
      c',
      rw (got, node, (==_iff n.size (length content)).1 size) rest,
      Holds-ext s.cache c' _ _ (Holds-trans s.cache c c' _ _ holds holds') (λ b.
          ap
            (λ (f : ℕ → Block).
              put_node e (written f n.start_block content 0 n.block_count) id (stamped e n) b)
            (fun_ext holds.memory_is)),
    )

-- With a sound cache, an inode that is in use, whose fields fit into their bytes and whose blocks fit its
-- size, lie on the disk and start behind the block of the table that holds the inode, and a clock below
-- 2 ^ 64: `write_inode_data` of contents of the inode's size answers true; `read_inode_data` then returns
-- the contents, `read_inode` the inode with the new time, and no block has changed but the inode's own
-- and its block of the table.
pub read_inode_data-write_inode_data :
    (e e' : Env) (id : ℕ) (n : INode) (content : List ℕ) (s : INodeManager)
    → IsSound s.cache
    → is_used s id ≡ true
    → node_at (view s.cache) id ≡ n
    → IsInode n
    → IsPlaced n id s.cache.disk.total_blocks
    → n.size ≡ length content
    → e.now < 2 ^ 64
    → ((write_inode_data e id content s).1 ≡ some tt)
      × ((read_inode_data e' id (write_inode_data e id content s).0).1 ≡ some content)
      × ((read_inode e' id (write_inode_data e id content s).0).1 ≡ some (stamped e n))
      × ((b : ℕ)
          → b ≢ table_block id
          → (leb n.start_block b && ltb b (n.start_block + n.block_count)) ≡ false
          → view (write_inode_data e id content s).0.cache b ≡ view s.cache b)
unfolding put_node
read_inode_data-write_inode_data e e' id n content s v used node fits placed size clock =
    let (c, wrote, holds) = write_inode_data_lem e id n content s v used node size placed in
    let (c', got, _) =
      read_inode_data_lem e' id (stamped e n) content (with_cache c s) _ holds.sound used
        holds.memory_is stores (stamped-IsInode e n fits clock)
        (stamped-IsPlaced e n id s.cache.disk.total_blocks c.disk.total_blocks placed
          holds.total) in
    let (c'', read, _) = read_inode_lem e' id (with_cache c s) holds.sound used in
    rw (wrote, got, read)
      (
        refl,
        refl,
        ap (λ (f : ℕ → Block). some (node_at f id)) (fun_ext holds.memory_is) ∙ ap some stores.node,
        λ b table own. holds.memory_is b ∙ rw (ne→== b (table_block id) table, outside b own) refl,
      )
  where
    stores :
        Stores
          (put_node e
            (written (view s.cache) n.start_block content 0 n.block_count)
            id
            (stamped e n))
          id
          (stamped e n)
          content
    stores =
        written-Stores e id n content (view s.cache) s.cache.disk.total_blocks
          (λ b l. v.whole b (omega (arith, v.room))) fits clock
          (ltb→lt id max_inodes (and_left _ _ used)) placed size

    outside :
        (b : ℕ)
        → (leb n.start_block b && ltb b (n.start_block + n.block_count)) ≡ false
        → (leb (n.start_block + 0) b && ltb b (n.start_block + 0 + n.block_count)) ≡ false
    outside b own = ground (arith, own)
