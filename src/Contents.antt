-- ===== src/Contents.antt =====
-- What an inode holds: src/core/inode.cpp, `read_inode_data`, `write_inode_data`, `resize_inode`, and what reads
-- and writes the contents and the blocks of a file. Offsets are computed in 32 bits, then in 64.
pub mod Loops
pub mod Gather
pub mod RoundTrip
pub mod Runs
pub mod Resize
pub mod Grow
pub mod Outcome
pub mod Store
use os_course_design.Prelude.{
  ℕ, zero, suc, ◌+◌, ◌*◌, ◌-◌, ◌%◌, min, Bool, true, false, not, ◌&&◌, List, Option, none, some,
  ltb, leb, ◌==◌, if◌then◌else◌, length, take, replicate, overwrite, segment, u32_mod, add32,
}
use os_course_design.Disk.{Block}
use os_course_design.Bitmap.{
  is_block_allocated, mark_block_used, allocate_consecutive_blocks, free_consecutive_blocks,
}
use os_course_design.Bitmap.{FreeBitmap}
use os_course_design.Paths.{block_size, calculate_blocks_needed}
use os_course_design.INode.{
  INode, INodeManager, Env, Action, ◌>>=◌, ◌>>◌, pure, guard, modify, gets, or_undo, read_cache,
  write_cache, read_inode, write_inode, max_inodes, is_used, fs_file, Done,
}

-- `i * BLOCK_SIZE`
abbrev pub block_offset : ℕ → ℕ
block_offset i = i * block_size % u32_mod

-- `std::min(BLOCK_SIZE, size - offset)`, whose difference wraps around at 2 ^ 64.
abbrev pub copy_size : ℕ → ℕ → ℕ
copy_size size offset = if ltb size offset then block_size else min block_size (size - offset)

-- The loop of `read_inode_data`, over the rounds that are left.
pub read_blocks : Env → INode → List ℕ → ℕ → ℕ → Action (List ℕ)
read_blocks e node buffer i zero s = (s, some buffer)
read_blocks e node buffer i (suc rounds) s =
    ◌>>=◌ (read_cache e (add32 node.start_block i))
      (λ block.
        read_blocks e node
          (overwrite buffer (block_offset i) (take (copy_size node.size (block_offset i)) block))
          (i + 1) rounds)
      s

unfoldable pub read_inode_data : Env → ℕ → Action (List ℕ)
unfolding read_blocks
read_inode_data e inode_id = do
  node ← read_inode e inode_id
  read_blocks e node (replicate node.size 0) 0 node.block_count

-- The buffer of one round of `write_inode_data`.
pub block_of : List ℕ → ℕ → Block
block_of content i =
    overwrite (replicate block_size 0) 0
      (segment (block_offset i) (copy_size (length content) (block_offset i)) content)

-- The loop of `write_inode_data`.
pub write_blocks : Env → INode → List ℕ → ℕ → ℕ → Action Done
write_blocks e node content i zero s = (s, some tt)
write_blocks e node content i (suc rounds) s =
    ◌>>=◌ (write_cache e (add32 node.start_block i) (block_of content i))
      (λ _. write_blocks e node content (i + 1) rounds) s

-- The scan of `resize_inode`: no block behind the node's is allocated.
pub is_contiguous : FreeBitmap → ℕ → ℕ → ℕ → Bool
is_contiguous fb start i zero = true
is_contiguous fb start i (suc rounds) =
    let rest = is_contiguous fb start (i + 1) rounds in
    if is_block_allocated fb (add32 start i) then false else rest

pub mark_blocks : FreeBitmap → ℕ → ℕ → ℕ → FreeBitmap
mark_blocks fb start i zero = fb
mark_blocks fb start i (suc rounds) =
    mark_blocks (mark_block_used fb (add32 start i)) start (i + 1) rounds

-- The loop that copies the blocks, from the start of the old run to that of the new one.
pub move_blocks : Env → ℕ → ℕ → ℕ → ℕ → Action Done
move_blocks e from to i zero s = (s, some tt)
move_blocks e from to i (suc rounds) s =
    ◌>>=◌ (read_cache e (add32 from i))
      (λ buffer. write_cache e (add32 to i) buffer >> move_blocks e from to (i + 1) rounds) s

unfoldable pub allocate : ℕ → Action ℕ
allocate count s =
    let (bitmap', start) = allocate_consecutive_blocks s.bitmap count in
    (record s { bitmap = bitmap' }, start)

unfoldable pub release_blocks : ℕ → ℕ → INodeManager → INodeManager
release_blocks start count s = record s { bitmap = free_consecutive_blocks s.bitmap start count }

-- The new blocks are marked behind the old ones.
extend : Env → ℕ → INode → ℕ → ℕ → Action Done
unfolding mark_blocks
extend e inode_id node new_size new_blocks = do
  modify (λ s. record s {
    bitmap =
        mark_blocks s.bitmap (add32 node.start_block node.block_count) 0
          (new_blocks - node.block_count);
  })
  write_inode e inode_id
      (record node { block_count = new_blocks; size = new_size; modify_time = e.now })

-- The contents move to a new run.
move : Env → ℕ → INode → ℕ → ℕ → Action Done
unfolding move_blocks
move e inode_id node new_size new_blocks = do
  new_start ← allocate new_blocks
  or_undo (move_blocks e node.start_block new_start 0 node.block_count)
      (release_blocks new_start new_blocks)
  modify (release_blocks node.start_block node.block_count)
  write_inode e inode_id (record node {
    start_block = new_start;
    block_count = new_blocks;
    size = new_size;
    modify_time = e.now;
  })

resize_node : Env → ℕ → INode → ℕ → ℕ → Action Done
unfolding is_contiguous extend move
resize_node e inode_id node new_size new_blocks s =
    if new_blocks == node.block_count
    then write_inode e inode_id (record node { size = new_size; modify_time = e.now }) s
    else if ltb node.block_count new_blocks
        && is_contiguous s.bitmap (add32 node.start_block node.block_count) 0
            (new_blocks - node.block_count)
    then extend e inode_id node new_size new_blocks s
    else move e inode_id node new_size new_blocks s

unfoldable pub resize_inode : Env → ℕ → ℕ → Action Done
unfolding resize_node
resize_inode e inode_id new_size = do
  used ← gets (λ s. is_used s inode_id)
  guard used
  node ← read_inode e inode_id
  resize_node e inode_id node new_size (calculate_blocks_needed new_size)

-- The inode, resized if the contents have another size. `resize_inode` takes 32 bits of it.
pub sized_inode : Env → ℕ → ℕ → Action INode
sized_inode e inode_id size s =
    ◌>>=◌ (read_inode e inode_id)
      (λ node s'.
        if node.size == size
        then (s', some node)
        else ◌>>=◌ (resize_inode e inode_id (size % u32_mod)) (λ _. read_inode e inode_id) s')
      s

unfoldable pub write_inode_data : Env → ℕ → List ℕ → Action Done
unfolding write_blocks sized_inode
write_inode_data e inode_id content = do
  node ← sized_inode e inode_id (length content)
  write_blocks e node content 0 node.block_count
  write_inode e inode_id (record node { modify_time = e.now })

unfoldable pub read_file_data : Env → ℕ → Action (List ℕ)
read_file_data e inode_id = do
  node ← read_inode e inode_id
  guard (node.kind == fs_file)
  read_inode_data e inode_id

unfoldable pub write_file_data : Env → ℕ → List ℕ → Action Done
write_file_data e inode_id content = do
  node ← read_inode e inode_id
  guard (node.kind == fs_file)
  write_inode_data e inode_id content

unfoldable pub read_file_block_data : Env → ℕ → ℕ → Action (List ℕ)
read_file_block_data e inode_id block_index = do
  node ← read_inode e inode_id
  guard (node.kind == fs_file)
  guard (ltb block_index node.block_count)
  block ← read_cache e (add32 node.start_block block_index)
  pure (take (copy_size node.size (block_offset block_index)) block)

-- The file grows to hold the block.
reach_block : Env → ℕ → ℕ → INode → Action INode
reach_block e inode_id block_index node s =
    if ltb block_index node.block_count
    then (s, some node)
    else ◌>>=◌ (resize_inode e inode_id (add32 block_index 1 * block_size % u32_mod))
        (λ _. read_inode e inode_id) s

unfoldable pub write_file_block_data : Env → ℕ → ℕ → List ℕ → Action Done
unfolding reach_block
write_file_block_data e inode_id block_index content = do
  found ← read_inode e inode_id
  guard (found.kind == fs_file)
  node ← reach_block e inode_id block_index found
  write_cache e (add32 node.start_block block_index)
      (overwrite (replicate block_size 0) 0 (take block_size content))
  write_inode e inode_id (record node { modify_time = e.now })
