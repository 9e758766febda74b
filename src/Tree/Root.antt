-- ===== src/Tree/Root.antt =====
-- The root directory that `create_root_directory` leaves.
use os_course_design.Prelude.{
  ℕ, ◌≡◌, refl, true, false, List, [], ◌∷◌, Option, none, some, arith, inl, inr, Option-cases,
  same_string, strncpy, set, add32, c_string, text_eq,
}
use os_course_design.Directory.{Directory, find_entry, find_in, add_entry, new_entry}
use os_course_design.Paths.{slash, dot, dot_dot, split_path}
use os_course_design.INode.{
  INodeManager, Env, Action, follow, or_undo, guard, modify, write_inode, Done, root_inode_id,
}
use os_course_design.Contents.{allocate, release_blocks}
use os_course_design.Tree.Walk.{directory_found}
use os_course_design.Tree.{
  create_root_directory, make_root, enter_root, store_root, root_inode, root_entries, abandon_root,
  save_directory_content, cache_directory, get_directory, walk, resolve_path, resolved,
}

-- If the call answers true, the directory is in the directory cache.
abbrev Caches : Directory → INodeManager × Option Done → Type 0
Caches d r = r.1 ≡ some tt → r.0.directory_cache root_inode_id ≡ some d

follow-Caches :
    {A : Type 0} (d : Directory) (r : INodeManager × Option A) (k : A → Action Done)
    → ((a : A) (s : INodeManager) → Caches d (k a s))
    → Caches d (follow r k)
follow-Caches d r k later = elim (Option-cases (r.1)) [
  | inl failed ↦ λ h. absurd (ground (arith, rw (follow, failed) at h))
  | inr (a, ok) ↦ rw ok (later a r.0)
]

store_root-Caches :
    (e : Env) (start : ℕ) (s : INodeManager) → Caches root_entries.0 (store_root e start s)
unfolding store_root cache_directory
store_root-Caches e start s =
    follow-Caches root_entries.0
      (or_undo (save_directory_content e root_inode_id root_entries.0) (abandon_root e start) s)
      (λ _. modify (cache_directory root_inode_id root_entries.0)) (λ _ s' h. refl)

enter_root-Caches :
    (e : Env) (start : ℕ) (s : INodeManager) → Caches root_entries.0 (enter_root e start s)
unfolding enter_root
enter_root-Caches e start s =
    follow-Caches root_entries.0 (or_undo (guard root_entries.1) (release_blocks start 1) s)
      (λ _. store_root e start) (λ _ s'. store_root-Caches e start s')

make_root-Caches :
    (e : Env) (start : ℕ) (s : INodeManager) → Caches root_entries.0 (make_root e start s)
unfolding make_root
make_root-Caches e start s =
    follow-Caches root_entries.0
      (or_undo (write_inode e root_inode_id (root_inode e start)) (release_blocks start 1) s)
      (λ _ s'. enter_root e start (counted s')) (λ _ s'. enter_root-Caches e start (counted s'))
  where
    counted : INodeManager → INodeManager
    counted s' = record s' {
      inode_used = set s'.inode_used root_inode_id true;
      inode_count = add32 s'.inode_count 1;
    }

-- A root directory that was made is in the directory cache.
pub create_root_directory-Caches :
    (e : Env) (s : INodeManager)
    → (create_root_directory e s).1 ≡ some tt
    → (create_root_directory e s).0.directory_cache root_inode_id ≡ some root_entries.0
unfolding create_root_directory
create_root_directory-Caches e s =
    follow-Caches root_entries.0 (allocate 1 s) (make_root e)
      (λ start s'. make_root-Caches e start s')

-- It has no entries but "." and "..".
pub find_entry-root_entries :
    (name : List ℕ)
    → same_string dot name ≡ false
    → same_string dot_dot name ≡ false
    → find_entry root_entries.0 name ≡ none
unfolding root_entries find_entry find_in add_entry new_entry strncpy c_string text_eq
find_entry-root_entries name a b = rw (a, b) refl

-- Behind a cached root directory that has no entry of the first name, a path leads nowhere.
pub resolved_nowhere :
    (e : Env) (s : INodeManager) (d : Directory) (path name : List ℕ) (rest : List (List ℕ))
    → s.directory_cache root_inode_id ≡ some d
    → find_entry d name ≡ none
    → split_path path ≡ name ∷ rest
    → text_eq path (slash ∷ []) ≡ false
    → resolved e path s ≡ (s, none)
unfolding resolve_path walk
resolved_nowhere e s d path name rest cached missing splits below =
    rw (below, splits, walk, there, follow, missing, there) refl
  where
    there : get_directory e root_inode_id s ≡ (s, some d)
    there = directory_found e root_inode_id d s cached
