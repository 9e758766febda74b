-- ===== src/Listing.antt =====
-- What is told of files, and the deletion of directories: src/core/inode.h, `FileInfo`, and
-- src/core/inode.cpp, `list_directory`, `get_file_info`, `delete_directory`.
pub mod Fuel
pub mod Empty
pub mod Missing
mod Tests
use os_course_design.Prelude.{
  ℕ, zero, suc, ◌+◌, ◌-◌, Bool, true, false, not, ◌&&◌, ◌||◌, List, [], ◌∷◌, ◌++◌, Option, none,
  some, ltb, leb, ◌==◌, if◌then◌else◌, length, set, take, drop, overwrite, strncpy, c_string,
  text_eq, same_string, add32, sub32, uint32_max, u32_mod, ◌%◌,
}
use os_course_design.Bitmap.{allocate_consecutive_blocks}
use os_course_design.Paths.{
  slash, dot, dot_dot, split_path, collapse_path, is_valid_filename, calculate_blocks_needed,
}
use os_course_design.Directory.{
  DirectoryEntry, Directory, find_entry, add_entry, remove_entry, serialize, deserialize,
}
use os_course_design.Directory
use os_course_design.INode.{
  INode, INodeManager, Env, Action, ◌>>=◌, ◌>>◌, pure, guard, modify, gets, attempt, answer,
  or_undo, read_inode, write_inode, max_inodes, is_used, fs_file, fs_directory, root_inode_id, Done,
}
use os_course_design.Contents.{
  read_inode_data, write_inode_data, read_file_data, write_file_data, resize_inode, allocate,
  release_blocks, read_file_block_data, write_file_block_data,
}
use os_course_design.Tree.{
  minus_one, new_directory, cache_directory, save_directory_content, get_directory, find_inode,
  resolved, unless_missing, delete_inode, create_inode,
}
use os_course_design.Files.{resolve_kind}

pub record FileInfo : Type 0 where
  pub name : List ℕ
  pub path : List ℕ
  pub is_directory : Bool
  pub size : ℕ
  pub create_time : ℕ
  pub modify_time : ℕ
  pub block_count : ℕ
  pub start_block : ℕ
  pub inode_id : ℕ

-- The constructor: no file has inode 0.
abbrev pub no_info : FileInfo
no_info = record {
  name = [];
  path = [];
  is_directory = false;
  size = 0;
  create_time = 0;
  modify_time = 0;
  block_count = 0;
  start_block = 0;
  inode_id = 0;
}

unfoldable pub info_of : List ℕ → List ℕ → INode → FileInfo
info_of name path node = record {
  name = c_string name;
  path = path;
  is_directory = node.kind == fs_directory;
  size = node.size;
  create_time = node.create_time;
  modify_time = node.modify_time;
  block_count = node.block_count;
  start_block = node.start_block;
  inode_id = node.id;
}

-- The information that `get_file_info` fills in, if it reads the inode.
info_if : List ℕ → Option INode → FileInfo
unfolding info_of
info_if path none = no_info
info_if path (some n) = info_of n.name path n

unfoldable pub get_file_info : Env → List ℕ → INodeManager → INodeManager × FileInfo
unfolding info_if
get_file_info e path s =
    let (s', node) = (◌>>=◌ (resolved e path) (λ inode_id. read_inode e inode_id) s) in
    (s', info_if path node)

-- The loop of `list_directory`: an entry whose inode cannot be read is left out.
pub list_entries : Env → List ℕ → List DirectoryEntry → INodeManager → INodeManager × List FileInfo
list_entries e path [] s = (s, [])
list_entries e path (entry ∷ rest) s =
    let (s', node) = read_inode e entry.inode_id s in
    let (s'', infos) = list_entries e path rest s' in
    (
      s'',
      elim node [
        | none ↦ infos
        | some n ↦ info_of entry.name (path ++ slash ∷ c_string entry.name) n ∷ infos
      ],
    )

unfoldable pub list_directory : Env → List ℕ → INodeManager → INodeManager × List FileInfo
unfolding list_entries info_of
list_directory e normalized s =
    let (s', d) = (◌>>=◌ (resolved e normalized) (λ dir_inode. get_directory e dir_inode) s) in
    elim d [ none ↦ (s', []) | some d' ↦ list_entries e normalized d'.entries s' ]

-- What a recursive deletion comes to: an answer, or more recursion than there is fuel.
pub data Outcome : Type 0 where
  answered : Bool → Outcome
  exhausted : Outcome

-- A deletion step of one entry; a failure ends the loop.
abbrev then_more :
    INodeManager × Outcome → (INodeManager → INodeManager × Outcome) → INodeManager × Outcome
then_more r more = elim r.1 [
  | answered ok ↦ if ok then more r.0 else (r.0, answered false)
  | exhausted ↦ (r.0, exhausted)
]

abbrev answered_by : INodeManager × Option Done → INodeManager × Outcome
answered_by r = (r.0, elim r.1 [ none ↦ answered false | some _ ↦ answered true ])

-- One entry, with `recur` for the recursive call.
unfoldable delete_entry :
    Env
    → (ℕ → INodeManager → INodeManager × Outcome)
    → DirectoryEntry
    → INodeManager
    → INodeManager × Outcome
delete_entry e recur entry s =
    let (s', node) = read_inode e entry.inode_id s in
    if same_string entry.name dot || same_string entry.name dot_dot
    then (s, answered true)
    else elim node [
      | none ↦ (s', answered true)
      | some n ↦
          if n.kind == fs_directory
          then recur entry.inode_id s'
          else answered_by (delete_inode e entry.inode_id s')
    ]

unfoldable delete_entries :
    Env
    → (ℕ → INodeManager → INodeManager × Outcome)
    → List DirectoryEntry
    → INodeManager
    → INodeManager × Outcome
unfolding delete_entry
delete_entries e recur [] s = (s, answered true)
delete_entries e recur (entry ∷ rest) s =
    then_more (delete_entry e recur entry s) (λ s'. delete_entries e recur rest s')

-- `delete_directory_recursive`, on fuel: directories that contain each other would never end.
unfoldable pub delete_directory_recursive : Env → ℕ → ℕ → INodeManager → INodeManager × Outcome
unfolding delete_entries
delete_directory_recursive e zero dir_id s = (s, exhausted)
delete_directory_recursive e (suc fuel) dir_id s =
    let (s', d) = get_directory e dir_id s in
    if dir_id == root_inode_id then (s, answered false) else elim d [
      | none ↦ (s', answered false)
      | some d' ↦
          then_more (delete_entries e (delete_directory_recursive e fuel) d'.entries s')
            (λ s''. answered_by (delete_inode e dir_id s''))
    ]

unfoldable pub delete_directory : Env → ℕ → List ℕ → INodeManager → INodeManager × Outcome
delete_directory e fuel path s =
    let (s', inode_id) = resolve_kind e fs_directory path s in
    elim inode_id [
      | none ↦ (s', answered false)
      | some id ↦
          if id == root_inode_id
          then (s', answered false)
          else delete_directory_recursive e fuel id s'
    ]
