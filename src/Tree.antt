-- ===== src/Tree.antt =====
-- Directories, and the inodes in them: src/core/inode.cpp, `create_root_directory`, `create_inode`, `delete_inode`, `find_inode`,
-- `resolve_path` and what they call.
-- An `int32_t` result is its pattern of 32 bits. A `Directory` in the directory cache is shared: a change of
-- it stays, even if it cannot be saved.
pub mod Walk
pub mod Root
pub mod Create
use os_course_design.Prelude.{
  ℕ, zero, suc, ◌+◌, ◌-◌, Bool, true, false, not, ◌&&◌, ◌||◌, List, [], ◌∷◌, ◌++◌, Option, none,
  some, ltb, leb, ◌==◌, if◌then◌else◌, length, set, take, drop, overwrite, strncpy, c_string,
  text_eq, same_string, add32, sub32, uint32_max, u32_mod, ◌%◌,
}
use os_course_design.Bitmap.{allocate_consecutive_blocks}
use os_course_design.Paths.{
  slash, dot, dot_dot, split_path, collapse_path, is_valid_filename, calculate_blocks_needed,
}
use os_course_design.Directory.{
  DirectoryEntry, Directory, find_entry, add_entry, remove_entry, serialize, deserialize,
}
use os_course_design.Directory
use os_course_design.INode.{
  INode, INodeManager, Env, Action, ◌>>=◌, ◌>>◌, pure, guard, modify, gets, attempt, answer,
  or_undo, read_inode, write_inode, max_inodes, is_used, fs_file, fs_directory, root_inode_id, Done,
}
use os_course_design.Contents.{
  read_inode_data, write_inode_data, read_file_data, write_file_data, resize_inode, allocate,
  release_blocks, read_file_block_data, write_file_block_data,
}

-- -1, -2 and -3 as `int32_t`
abbrev pub minus_one : ℕ
minus_one = uint32_max

abbrev pub minus_two : ℕ
minus_two = uint32_max - 1

abbrev pub minus_three : ℕ
minus_three = uint32_max - 2

abbrev pub put_directory : ℕ → Option Directory → INodeManager → INodeManager
put_directory dir_id d s = record s {
  directory_cache = λ j. if j == dir_id then d else s.directory_cache j;
}

-- `cache_directory` and `remove_from_cache`
unfoldable pub cache_directory : ℕ → Directory → INodeManager → INodeManager
cache_directory dir_id d s = put_directory dir_id (some d) s

unfoldable pub remove_from_cache : ℕ → INodeManager → INodeManager
remove_from_cache dir_id s = put_directory dir_id none s

abbrev pub new_directory : ℕ → Directory
new_directory dir_id = record { dir_inode_id = dir_id; entries = [] }

-- What a call that changes an object leaves there, and its answer.
abbrev changed : Directory × Bool → Option Directory
changed r = if r.1 then some r.0 else none

unfoldable pub load_directory_content : Env → ℕ → Directory → Action Directory
load_directory_content e dir_id d = do
  content ← read_inode_data e dir_id
  λ s. (s, changed (deserialize d content))

unfoldable pub save_directory_content : Env → ℕ → Directory → Action Done
save_directory_content e dir_id d =
    write_inode_data e dir_id (serialize (e.pad_one ∷ e.pad_two ∷ e.pad_three ∷ []) d)

load_directory : Env → ℕ → Action Directory
load_directory e dir_id = do
  d ← load_directory_content e dir_id (new_directory dir_id)
  modify (cache_directory dir_id d)
  pure d

unfoldable pub get_directory : Env → ℕ → Action Directory
unfolding load_directory
get_directory e dir_id s = elim (s.directory_cache dir_id) [
  | some d ↦ (s, some d)
  | none ↦ load_directory e dir_id s
]

-- The object that `get_directory` returned is the one in the cache, so the change is seen there.
change_entries : Env → ℕ → (Directory → Directory × Bool) → Action Done
change_entries e dir_id change = do
  d ← get_directory e dir_id
  modify (cache_directory dir_id (change d).0)
  guard (change d).1
  save_directory_content e dir_id (change d).0

unfoldable pub add_directory_entry : Env → ℕ → List ℕ → ℕ → ℕ → Action Done
unfolding change_entries
add_directory_entry e dir_id name child_id kind =
    change_entries e dir_id (λ d. add_entry d name child_id kind)

unfoldable pub remove_directory_entry : Env → ℕ → List ℕ → Action Done
unfolding change_entries
remove_directory_entry e dir_id name = change_entries e dir_id (λ d. remove_entry d name)

-- `if (inode_id == -1) return false`
abbrev pub unless_missing : INodeManager × ℕ → INodeManager × Option ℕ
unless_missing r = (r.0, if r.1 == minus_one then none else some r.1)

-- The id that a directory object gives a name.
unfoldable pub found_in : Option Directory → List ℕ → ℕ
found_in none name = minus_one
found_in (some d) name = elim (find_entry d name) [ none ↦ minus_one | some entry ↦ entry.inode_id ]

unfoldable pub find_inode : Env → ℕ → List ℕ → INodeManager → INodeManager × ℕ
unfolding found_in
find_inode e parent_id name s = let (s', d) = get_directory e parent_id s in (s', found_in d name)

-- The loop of `resolve_path` over the components that are left; `none` is its `return -1`.
pub walk : Env → ℕ → List (List ℕ) → Action ℕ
walk e current [] s = (s, some current)
walk e current (component ∷ rest) s =
    ◌>>=◌ (get_directory e current)
      (λ d s'. elim (find_entry d component) [
        | none ↦ (s', none)
        | some entry ↦ walk e entry.inode_id rest s'
      ])
      s

abbrev pub id_or_minus_one : Option ℕ → ℕ
id_or_minus_one none = minus_one
id_or_minus_one (some id) = id

unfoldable pub resolve_path : Env → List ℕ → INodeManager → INodeManager × ℕ
unfolding walk
resolve_path e normalized s =
    let (s', r) = walk e root_inode_id (split_path normalized) s in
    if text_eq normalized (slash ∷ []) then (s, root_inode_id) else (s', id_or_minus_one r)

-- The callers' `resolve_path` with their test for -1.
abbrev pub resolved : Env → List ℕ → Action ℕ
resolved e path s = unless_missing (resolve_path e path s)

unfoldable pub delete_inode : Env → ℕ → Action Done
delete_inode e inode_id = do
  used ← gets (λ s. is_used s inode_id)
  guard used
  node ← read_inode e inode_id
  attempt (
      guard (not (node.parent_id == inode_id))
      >> remove_directory_entry e node.parent_id (c_string node.name))
  modify (λ s.
      if ltb 0 node.block_count then release_blocks node.start_block node.block_count s else s)
  modify (remove_from_cache inode_id)
  modify (λ s. record s {
    inode_used = set s.inode_used inode_id false;
    inode_count = sub32 s.inode_count 1;
  })

abbrev root_inode : Env → ℕ → INode
root_inode e start = record {
  id = root_inode_id;
  kind = fs_directory;
  size = 0;
  start_block = start;
  block_count = 1;
  parent_id = root_inode_id;
  create_time = e.now;
  modify_time = e.now;
  name = overwrite e.stale_name 0 (slash ∷ 0 ∷ []);
}

-- Both entries, as far as the calls get.
pub root_entries : Directory × Bool
root_entries =
    let first = add_entry (new_directory root_inode_id) dot root_inode_id fs_directory in
    if first.1 then add_entry first.0 dot_dot root_inode_id fs_directory else first

-- The last undoing: the block is freed, then the inode is deleted.
abandon_root : Env → ℕ → INodeManager → INodeManager
abandon_root e start s = (delete_inode e root_inode_id (release_blocks start 1 s)).0

-- The directory object is saved and cached.
store_root : Env → ℕ → Action Done
unfolding abandon_root
store_root e start = do
  or_undo (save_directory_content e root_inode_id root_entries.0) (abandon_root e start)
  modify (cache_directory root_inode_id root_entries.0)

-- Its entries are made.
enter_root : Env → ℕ → Action Done
unfolding store_root
enter_root e start = do or_undo (guard root_entries.1) (release_blocks start 1); store_root e start

-- The inode is written and counted.
make_root : Env → ℕ → Action Done
unfolding enter_root
make_root e start = do
  or_undo (write_inode e root_inode_id (root_inode e start)) (release_blocks start 1)
  modify (λ s. record s {
    inode_used = set s.inode_used root_inode_id true;
    inode_count = add32 s.inode_count 1;
  })
  enter_root e start

unfoldable pub create_root_directory : Env → Action Done
unfolding make_root root_entries
create_root_directory e = do start ← allocate 1; make_root e start

-- The first slot from `i` on that is not used.
unfoldable pub free_slot : List Bool → ℕ → Option ℕ
free_slot [] i = none
free_slot (used ∷ rest) i = let later = free_slot rest (i + 1) in if used then later else some i

unfoldable pub set_used : ℕ → Bool → INodeManager → INodeManager
set_used id used s = record s { inode_used = set s.inode_used id used }

abbrev pub new_inode : Env → ℕ → ℕ → ℕ → ℕ → List ℕ → ℕ → ℕ → INode
new_inode e id parent_id kind size name start blocks = record {
  id = id;
  kind = kind;
  size = size;
  start_block = start;
  block_count = blocks;
  parent_id = parent_id;
  create_time = e.now;
  modify_time = e.now;
  name = strncpy 63 name ++ 0 ∷ [];
}

-- The inode is written: it enters its parent's directory, unless it is its own parent, and is counted.
enter_parent : Env → ℕ → ℕ → List ℕ → ℕ → INodeManager → INodeManager × ℕ
enter_parent e id parent_id name kind s =
    let (s', added) =
      (if parent_id == id then (s, some tt) else add_directory_entry e parent_id name id kind s) in
    elim added [
      | none ↦ ((delete_inode e id s').0, minus_one)
      | some _ ↦ (record (set_used id true s') { inode_count = add32 s'.inode_count 1 }, id)
    ]

-- The blocks are allocated.
write_new : Env → ℕ → ℕ → ℕ → List ℕ → ℕ → ℕ → ℕ → INodeManager → INodeManager × ℕ
unfolding enter_parent
write_new e id parent_id kind name size start blocks s =
    let (s', written) = write_inode e id (new_inode e id parent_id kind size name start blocks) s in
    elim written [
      | none ↦ (set_used id false (release_blocks start blocks s'), minus_three)
      | some _ ↦ enter_parent e id parent_id name kind s'
    ]

unfoldable pub blocks_of_kind : ℕ → ℕ → ℕ
blocks_of_kind kind size = if kind == fs_file then calculate_blocks_needed size else 1

-- The slot is found and marked.
allocate_new : Env → ℕ → ℕ → ℕ → List ℕ → ℕ → INodeManager → INodeManager × ℕ
unfolding write_new
allocate_new e id parent_id kind name size s =
    let (s', start) = allocate (blocks_of_kind kind size) s in
    elim start [
      | none ↦ (set_used id false s', minus_two)
      | some b ↦ write_new e id parent_id kind name size b (blocks_of_kind kind size) s'
    ]

unfoldable pub create_inode : Env → ℕ → ℕ → List ℕ → ℕ → INodeManager → INodeManager × ℕ
unfolding free_slot allocate_new
create_inode e parent_id kind name size s =
    if leb max_inodes s.inode_count
    then (s, minus_one)
    else elim (free_slot (drop 1 s.inode_used) 1) [
      | none ↦ (s, minus_one)
      | some id ↦ allocate_new e id parent_id kind name size (set_used id true s)
    ]
