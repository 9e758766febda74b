-- ===== src/Tree/Walk.antt =====
-- Paths through directories that are all in the directory cache.
use os_course_design.Prelude.{
  ℕ, ◌<◌, ◌≡◌, refl, ap, false, List, [], ◌∷◌, Option, none, some, arith, ne→==, text_eq,
  Option-cases, inl, inr,
}
use os_course_design.Directory.{DirectoryEntry, Directory, find_entry}
use os_course_design.Paths.{slash, split_path}
use os_course_design.INode.{INodeManager, Env, follow, root_inode_id}
use os_course_design.Tree.{walk, get_directory, resolve_path, resolved, minus_one}

-- The entry of a name in a directory that may be there.
abbrev pub entry_in : Option Directory → List ℕ → Option DirectoryEntry
entry_in none name = none
entry_in (some d) name = find_entry d name

-- Where the cached directories lead, without the disk.
unfoldable pub cached_walk : (ℕ → Option Directory) → ℕ → List (List ℕ) → Option ℕ
cached_walk directories current [] = some current
cached_walk directories current (component ∷ rest) =
    elim (entry_in (directories current) component) [
      | none ↦ none
      | some entry ↦ cached_walk directories entry.inode_id rest
    ]

pub directory_found :
    (e : Env) (current : ℕ) (d : Directory) (s : INodeManager)
    → s.directory_cache current ≡ some d
    → get_directory e current s ≡ (s, some d)
unfolding get_directory
directory_found e current d s found = rw (found, get_directory) refl

walk-cached :
    (e : Env) (current id : ℕ) (components : List (List ℕ)) (s : INodeManager)
    → cached_walk s.directory_cache current components ≡ some id
    → walk e current components s ≡ (s, some id)
unfolding walk cached_walk
walk-cached e current id [] s h = ap (λ (o : Option ℕ). (s, o)) h
walk-cached e current id (component ∷ rest) s h = elim (Option-cases (s.directory_cache current)) [
  | inl missing ↦ absurd (ground (arith, rw (missing, cached_walk) at h))
  | inr (d, found) ↦ elim (Option-cases (find_entry d component)) [
    | inl missing ↦ absurd (ground (arith, rw (found, cached_walk, missing) at h))
    | inr (entry, there) ↦
        rw (directory_found e current d s found, follow, there, directory_found e current d s found)
          (walk-cached e entry.inode_id id rest s (rw (found, cached_walk, there) at h))
  ]
]

-- A path through cached directories is resolved, and nothing changes.
pub resolved-cached :
    (e : Env) (path : List ℕ) (id : ℕ) (s : INodeManager)
    → text_eq path (slash ∷ []) ≡ false
    → cached_walk s.directory_cache root_inode_id (split_path path) ≡ some id
    → id < minus_one
    → resolved e path s ≡ (s, some id)
unfolding resolve_path
resolved-cached e path id s below h small =
    rw
      (
        below,
        walk-cached e root_inode_id id (split_path path) s h,
        ne→== id minus_one (omega arith),
      )
      refl
