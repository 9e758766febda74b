-- ===== src/Files.antt =====
-- Files and directories by their paths: src/core/inode.cpp, from `create_file` to `write_file_block`, and
-- `directory_exists`.
pub mod Failures
pub mod RoundTrip
use os_course_design.Prelude.{
  ℕ, zero, suc, ◌+◌, ◌-◌, Bool, true, false, not, ◌&&◌, ◌||◌, List, [], ◌∷◌, ◌++◌, Option, none,
  some, ltb, leb, ◌==◌, if◌then◌else◌, length, set, take, drop, overwrite, strncpy, c_string,
  text_eq, same_string, add32, sub32, uint32_max, u32_mod, ◌%◌,
}
use os_course_design.Bitmap.{allocate_consecutive_blocks}
use os_course_design.Paths.{
  slash, dot, dot_dot, split_path, collapse_path, is_valid_filename, calculate_blocks_needed,
}
use os_course_design.Directory.{
  DirectoryEntry, Directory, find_entry, add_entry, remove_entry, serialize, deserialize,
}
use os_course_design.Directory
use os_course_design.INode.{
  INode, INodeManager, Env, Action, ◌>>=◌, ◌>>◌, pure, guard, modify, gets, attempt, answer,
  or_undo, read_inode, write_inode, max_inodes, is_used, fs_file, fs_directory, root_inode_id, Done,
}
use os_course_design.Contents.{
  read_inode_data, write_inode_data, read_file_data, write_file_data, resize_inode, allocate,
  release_blocks, read_file_block_data, write_file_block_data,
}
use os_course_design.Tree.{
  minus_one, new_directory, cache_directory, save_directory_content, get_directory, find_inode,
  resolved, unless_missing, delete_inode, create_inode,
}

-- `find_last_of('/')`
unfoldable pub last_slash : List ℕ → Option ℕ
last_slash [] = none
last_slash (c ∷ cs) = elim (last_slash cs) [
  | some k ↦ some (k + 1)
  | none ↦ if c == slash then some 0 else none
]

-- Without a slash, `npos` takes the whole path as the parent and as the name.
unfoldable pub parent_path : List ℕ → List ℕ
parent_path path = elim (last_slash path) [
  | none ↦ path
  | some k ↦ if k == 0 then slash ∷ [] else take k path
]

unfoldable pub file_name : List ℕ → List ℕ
file_name path = elim (last_slash path) [ none ↦ path | some k ↦ drop (k + 1) path ]

-- `create_inode` with the callers' test, for -1 alone.
abbrev created : Env → ℕ → ℕ → List ℕ → ℕ → Action ℕ
created e parent_id kind name size s = unless_missing (create_inode e parent_id kind name size s)

-- No entry of the name: `if (find_inode(...) != -1) return false`.
unfoldable pub check_missing : Env → ℕ → List ℕ → Action Done
check_missing e parent_id name s =
    let (s', id) = find_inode e parent_id name s in (s', answer (id == minus_one))

unfoldable pub create_file : Env → List ℕ → List ℕ → Action Done
create_file e normalized content = do
  guard (is_valid_filename (file_name normalized))
  parent_inode ← resolved e (parent_path normalized)
  check_missing e parent_inode (file_name normalized)
  file_inode ←
      created e parent_inode fs_file (file_name normalized)
        ((if length content == 0 then 1 else length content) % u32_mod)
  if length content == 0 then pure tt else write_file_data e file_inode content

-- "." and ".."; the answers are not looked at.
unfoldable pub fresh_directory : ℕ → ℕ → Directory
fresh_directory dir_inode parent_inode =
    (add_entry (add_entry (new_directory dir_inode) dot dir_inode fs_directory).0 dot_dot
      parent_inode fs_directory).0

-- `delete_inode`, whatever it answers.
unfoldable pub discard : Env → ℕ → INodeManager → INodeManager
discard e id s = (delete_inode e id s).0

unfoldable pub create_directory : Env → List ℕ → List ℕ → Action Done
create_directory e parent name = do
  parent_inode ← resolved e (collapse_path parent)
  check_missing e parent_inode name
  dir_inode ← created e parent_inode fs_directory name 0
  or_undo (read_inode e dir_inode) (discard e dir_inode)
  or_undo (save_directory_content e dir_inode (fresh_directory dir_inode parent_inode))
      (discard e dir_inode)
  modify (cache_directory dir_inode (fresh_directory dir_inode parent_inode))

-- The path leads to an inode of the kind.
unfoldable pub resolve_kind : Env → ℕ → List ℕ → Action ℕ
resolve_kind e kind path = do
  inode_id ← resolved e path
  node ← read_inode e inode_id
  guard (node.kind == kind)
  pure inode_id

unfoldable pub read_file : Env → List ℕ → Action (List ℕ)
read_file e path = do inode_id ← resolve_kind e fs_file path; read_file_data e inode_id

unfoldable pub write_file : Env → List ℕ → List ℕ → Action Done
write_file e path content = do
  inode_id ← resolve_kind e fs_file path
  resize_inode e inode_id (length content % u32_mod)
  write_file_data e inode_id content

unfoldable pub read_file_block : Env → List ℕ → ℕ → Action (List ℕ)
read_file_block e path block_index = do
  inode_id ← resolved e path
  read_file_block_data e inode_id block_index

unfoldable pub write_file_block : Env → List ℕ → ℕ → List ℕ → Action Done
write_file_block e path block_index content = do
  inode_id ← resolved e path
  write_file_block_data e inode_id block_index content

unfoldable pub delete_file : Env → List ℕ → Action Done
delete_file e path = do inode_id ← resolve_kind e fs_file path; delete_inode e inode_id

unfoldable pub directory_exists : Env → List ℕ → Action Done
directory_exists e path = do
  inode_id ← resolved e path
  node ← read_inode e inode_id
  guard (node.kind == fs_directory)

-- A directory that is not found counts as empty.
unfoldable pub is_directory_empty : Env → ℕ → INodeManager → INodeManager × Bool
is_directory_empty e dir_id s =
    let (s', d) = get_directory e dir_id s in
    (s', elim d [ none ↦ true | some d' ↦ Directory.is_empty d' ])
