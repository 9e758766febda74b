-- ===== src/INode.antt =====
-- The inode table: src/core/inode.h and src/core/inode.cpp, `INode`, `INodeManager`, `read_inode` and
-- `write_inode`. The bitmap and the cache behind the pointers are parts of the manager's state. A call
-- that answers false keeps what it changed before. What a call finds outside the program is its `Env`: the
-- clock, which stands still during a call, and the bytes of memory that the code never sets.
pub mod Layout
pub mod Table
use os_course_design.Prelude.{
  ℕ, ◌+◌, ◌*◌, ◌/◌, ◌%◌, ◌^◌, Bool, true, false, not, ◌&&◌, ◌||◌, List, [], ◌∷◌, ◌++◌, Option, none,
  some, ltb, leb, ◌==◌, if◌then◌else◌, length, get_or, take, drop, replicate, overwrite, segment,
  word_bytes, word_of,
}
use os_course_design.Disk.{Block}
use os_course_design.Bitmap.{FreeBitmap}
use os_course_design.Cache.{CacheManager}
use os_course_design.Cache
use os_course_design.Directory.{Directory}
use os_course_design.Paths.{block_size}

pub record INode : Type 0 where
  pub id : ℕ
  pub kind : ℕ
  pub size : ℕ
  pub start_block : ℕ
  pub block_count : ℕ
  pub parent_id : ℕ
  pub create_time : ℕ
  pub modify_time : ℕ
  pub name : List ℕ

-- FS_FILE and FS_DIRECTORY
abbrev pub fs_file : ℕ
fs_file = 0

abbrev pub fs_directory : ℕ
fs_directory = 1

-- ROOT_INODE_ID
abbrev pub root_inode_id : ℕ
root_inode_id = 1

-- MAX_FILES
abbrev pub max_inodes : ℕ
max_inodes = 256

-- INODE_SIZE, INODES_PER_BLOCK and `inode_table_start_`
abbrev pub inode_size : ℕ
inode_size = 104

abbrev pub inodes_per_block : ℕ
inodes_per_block = block_size / inode_size

abbrev pub inode_table_start : ℕ
inode_table_start = 1

-- `pad_one` to `pad_three` lie behind the `type` of a struct, `stale_name` in a `name` before it is set.
pub record Env : Type 0 where
  pub now : ℕ
  pub pad_one : ℕ
  pub pad_two : ℕ
  pub pad_three : ℕ
  pub stale_name : List ℕ

-- `directory_cache` is a map from ids to the objects that are shared with whoever looks them up.
pub record INodeManager : Type 0 where
  pub cache : CacheManager
  pub bitmap : FreeBitmap
  pub inode_count : ℕ
  pub inode_used : List Bool
  pub directory_cache : ℕ → Option Directory

-- The constructor.
unfoldable pub inode_manager : FreeBitmap → CacheManager → INodeManager
inode_manager bitmap cache = record {
  cache = cache;
  bitmap = bitmap;
  inode_count = 0;
  inode_used = replicate max_inodes false;
  directory_cache = λ _. none;
}

-- A call that answers false is `none`; with an output parameter, `some` holds what the call left there.
abbrev pub Action : Type 0 → Type 0
Action A = INodeManager → INodeManager × Option A

abbrev pub follow :
    {A B : Type 0} → INodeManager × Option A → (A → Action B) → INodeManager × Option B
follow (s, none) f = (s, none)
follow (s, some a) f = f a s

abbrev pub ◌>>=◌ : {A B : Type 0} → Action A → (A → Action B) → Action B
◌>>=◌ m f s = follow (m s) f

infixl 5 ◌>>=◌ ◌>>◌
abbrev pub ◌>>◌ : {A B : Type 0} → Action A → Action B → Action B
m >> k = m >>= λ _. k

abbrev pub pure : {A : Type 0} → A → Action A
pure a s = (s, some a)

-- The result of a call that answers true and has nothing else to say.
abbrev pub Done : Type 0
Done = Unit

-- `if (...) return false`, unless the condition holds.
abbrev pub guard : Bool → Action Done
guard c s = (s, if c then some tt else none)

abbrev pub modify : (INodeManager → INodeManager) → Action Done
modify f s = (f s, some tt)

abbrev pub gets : {A : Type 0} → (INodeManager → A) → Action A
gets f s = (s, some (f s))

-- A call whose failure the caller looks at.
abbrev pub attempt : {A : Type 0} → Action A → Action (Option A)
attempt m s = let (s', r) = m s in (s', some r)

abbrev pub undo_failed :
    {A : Type 0} → INodeManager × Option A → (INodeManager → INodeManager) → INodeManager × Option A
undo_failed (s, none) undo = (undo s, none)
undo_failed (s, some a) undo = (s, some a)

-- The caller undoes something and answers false.
abbrev pub or_undo : {A : Type 0} → Action A → (INodeManager → INodeManager) → Action A
or_undo m undo s = undo_failed (m s) undo

abbrev pub answer : Bool → Option Done
answer b = if b then some tt else none

unfoldable pub read_cache : Env → ℕ → Action Block
read_cache e block_no s =
    let (cache', got) = Cache.read_block s.cache e.now block_no in
    (record s { cache = cache' }, got)

unfoldable pub write_cache : Env → ℕ → Block → Action Done
write_cache e block_no buffer s =
    let (cache', ok) = Cache.write_block s.cache e.now block_no buffer in
    (record s { cache = cache' }, answer ok)

-- `time_t` of 64 bits.
abbrev time_bytes : ℕ → List ℕ
time_bytes t = word_bytes t ++ word_bytes (t / 2 ^ 32)

abbrev time_of : List ℕ → ℕ
time_of bytes = word_of bytes + word_of (drop 4 bytes) * 2 ^ 32

-- The bytes of the struct: three bytes of padding stand behind `type`.
pub inode_bytes : Env → INode → List ℕ
inode_bytes e n =
    word_bytes n.id
    ++ (n.kind
        ∷ e.pad_one
        ∷ e.pad_two
        ∷ e.pad_three
        ∷ (word_bytes n.size
            ++ (word_bytes n.start_block
                ++ (word_bytes n.block_count
                    ++ (word_bytes n.parent_id
                        ++ (time_bytes n.create_time ++ (time_bytes n.modify_time ++ n.name)))))))

pub inode_of : List ℕ → INode
inode_of bytes = record {
  id = word_of bytes;
  kind = get_or (drop 4 bytes) 0 0;
  size = word_of (drop 8 bytes);
  start_block = word_of (drop 12 bytes);
  block_count = word_of (drop 16 bytes);
  parent_id = word_of (drop 20 bytes);
  create_time = time_of (drop 24 bytes);
  modify_time = time_of (drop 32 bytes);
  name = take 64 (drop 40 bytes);
}

abbrev pub table_block : ℕ → ℕ
table_block id = id / inodes_per_block + inode_table_start

abbrev pub table_offset : ℕ → ℕ
table_offset id = id % inodes_per_block * inode_size

abbrev pub is_used : INodeManager → ℕ → Bool
is_used s id = ltb id max_inodes && get_or s.inode_used id false

unfoldable pub read_inode : Env → ℕ → Action INode
unfolding inode_of
read_inode e id = do
  used ← gets (λ s. is_used s id)
  guard used
  buffer ← read_cache e (table_block id)
  pure (inode_of (segment (table_offset id) inode_size buffer))

-- The buffer is zeroed before; a failed read leaves it so.
abbrev pub buffer_of : Option Block → Block
buffer_of none = replicate block_size 0
buffer_of (some b) = b

unfoldable pub write_inode : Env → ℕ → INode → Action Done
unfolding inode_bytes
write_inode e id node = do
  guard (ltb id max_inodes)
  got ← attempt (read_cache e (table_block id))
  write_cache e (table_block id) (overwrite (buffer_of got) (table_offset id) (inode_bytes e node))
