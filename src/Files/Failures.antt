-- ===== src/Files/Failures.antt =====
-- What `create_file` does when the disk is full.
use os_course_design.Prelude.{
  ℕ, ◌<◌, ◌≡◌, refl, sym, ◌∙◌, true, List, [], none, some, arith, inl, inr, drop,
}
use os_course_design.Bitmap.{allocate_consecutive_blocks}
use os_course_design.Bitmap
use os_course_design.Directory.{Directory, find_entry}
use os_course_design.Paths.{is_valid_filename, calculate_blocks_needed}
use os_course_design.INode.{INodeManager, Env, fs_file, max_inodes}
use os_course_design.Tree.Walk.{directory_found}
use os_course_design.Tree.Create.{create_inode-full}
use os_course_design.Tree.{free_slot, blocks_of_kind, find_inode, found_in, resolved, minus_two}
use os_course_design.Files.{create_file, parent_path, file_name, check_missing, created}

-- No entry of the name in a cached directory.
check_missing-cached :
    (e : Env) (parent : ℕ) (name : List ℕ) (s : INodeManager) (d : Directory)
    → s.directory_cache parent ≡ some d
    → find_entry d name ≡ none
    → check_missing e parent name s ≡ (s, some tt)
unfolding check_missing find_inode found_in
check_missing-cached e parent name s d cached missing =
    rw (directory_found e parent d s cached, missing, found_in) refl

created-full :
    (e : Env) (parent : ℕ) (name : List ℕ) (s : INodeManager)
    → Bitmap.IsValid s.bitmap
    → (allocate_consecutive_blocks s.bitmap 1).1 ≡ none
    → s.inode_count < max_inodes
    → (id : ℕ) → free_slot (drop 1 s.inode_used) 1 ≡ some id
    → created e parent fs_file name 1 s ≡ (s, some minus_two)
unfolding blocks_of_kind calculate_blocks_needed
created-full e parent name s v full few id slot =
    elim (create_inode-full e parent fs_file name 1 s v full) [
      | inr e2 ↦ rw e2 refl
      | inl (_, inl many) ↦ absurd (omega arith)
      | inl (_, inr taken) ↦ absurd (ground (arith, sym taken ∙ slot))
    ]

-- When no block is free, `create_file` of an empty file answers true and changes nothing: for a valid name that
-- the cached parent directory does not have, with an inode to spare. `create_inode` then answers -2, and only
-- -1 is looked at.
pub create_file-full :
    (e : Env) (path : List ℕ) (s : INodeManager) (parent id : ℕ) (d : Directory)
    → Bitmap.IsValid s.bitmap
    → (allocate_consecutive_blocks s.bitmap 1).1 ≡ none
    → s.inode_count < max_inodes
    → free_slot (drop 1 s.inode_used) 1 ≡ some id
    → is_valid_filename (file_name path) ≡ true
    → resolved e (parent_path path) s ≡ (s, some parent)
    → s.directory_cache parent ≡ some d
    → find_entry d (file_name path) ≡ none
    → create_file e path [] s ≡ (s, some tt)
unfolding create_file
create_file-full e path s parent id d v full few slot valid resolves cached missing =
    rw
      (
        valid,
        resolves,
        check_missing-cached e parent (file_name path) s d cached missing,
        created-full e parent (file_name path) s v full few id slot,
      )
      refl
