-- ===== src/Listing/Empty.antt =====
-- The deletion of a directory that has no entries but "." and "..".
use os_course_design.Prelude.{
  ℕ, zero, suc, ◌<◌, ◌≡◌, refl, ap, Bool, true, false, List, [], ◌∷◌, none, some, arith, ltb, ◌==◌,
  ◌||◌, same_string, text_eq, All, set, get_or, ==_self, Bool-cases, ltb→lt, and_left, inl, inr,
}
use os_course_design.INode.{
  INode, INodeManager, Env, root_inode_id, read_inode, is_used, fs_directory, max_inodes,
}
use os_course_design.INode.Layout.{node_at}
use os_course_design.INode.Table.{IsSound, Gives, with_cache, read_inode_lem}
use os_course_design.Cache.Pages.{view}
use os_course_design.Files.{resolve_kind}
use os_course_design.Directory.{Directory, DirectoryEntry}
use os_course_design.Tree.{remove_from_cache, get_directory, resolved, delete_inode, minus_one}
use os_course_design.Tree.Walk.{cached_walk, resolved-cached}
use os_course_design.Paths.{slash, dot, dot_dot, split_path}
use os_course_design.Listing.{
  Outcome, answered, delete_entry, delete_entries, delete_directory_recursive, delete_directory,
}

-- Every entry is "." or "..".
abbrev pub OnlyDots : List DirectoryEntry → Type 0
OnlyDots entries = All (λ x. (same_string x.name dot || same_string x.name dot_dot) ≡ true) entries

-- The path of a directory whose inode is read.
resolve_kind-directory :
    (e : Env) (path : List ℕ) (id : ℕ) (s s' : INodeManager) (n : INode)
    → resolved e path s ≡ (s, some id)
    → read_inode e id s ≡ (s', some n)
    → n.kind ≡ fs_directory
    → resolve_kind e fs_directory path s ≡ (s', some id)
unfolding resolve_kind
resolve_kind-directory e path id s s' n leads got kind = rw (leads, got, kind) refl

-- The inode is out of use, and no directory is cached for it.
record Gone (id : ℕ) (s : INodeManager) : Type 0 where
  unused : is_used s id ≡ false
  forgotten : s.directory_cache id ≡ none

cleared : (used : List Bool) (id : ℕ) → get_or (set used id false) id false ≡ false
cleared [] id = refl
cleared (x ∷ xs) zero = refl
cleared (x ∷ xs) (suc id) = cleared xs id

-- The rest of `delete_inode` does not fail once the inode is read.
delete_inode-Gone :
    (e : Env) (id : ℕ) (s s' : INodeManager) (n : INode)
    → is_used s id ≡ true
    → read_inode e id s ≡ (s', some n)
    → ((delete_inode e id s).1 ≡ some tt) × Gone id (delete_inode e id s).0
unfolding delete_inode remove_from_cache
delete_inode-Gone e id s s' n used got =
    rw (used, got)
      (
        refl,
        record {
          unused = elim (Bool-cases (ltb id max_inodes)) [
            | inl t ↦ rw t (cleared _ id)
            | inr t ↦ rw t refl
          ];
          forgotten = rw (==_self id) refl;
        },
      )

cached_directory :
    (e : Env) (id : ℕ) (d : Directory) (s : INodeManager)
    → s.directory_cache id ≡ some d
    → get_directory e id s ≡ (s, some d)
unfolding get_directory
cached_directory e id d s cached = rw (get_directory, cached) refl

-- The loop passes over "." and "..".
delete_entries-dots :
    (e : Env) (recur : ℕ → INodeManager → INodeManager × Outcome) (entries : List DirectoryEntry)
    (s : INodeManager)
    → OnlyDots entries
    → delete_entries e recur entries s ≡ (s, answered true)
unfolding delete_entries delete_entry
delete_entries-dots e recur [] s dots = refl
delete_entries-dots e recur (x ∷ rest) s dots =
    rw dots.0 (delete_entries-dots e recur rest s dots.1)

delete_directory_recursive-dots :
    (e : Env) (fuel id : ℕ) (d : Directory) (s t : INodeManager)
    → (id == root_inode_id) ≡ false
    → s.directory_cache id ≡ some d
    → OnlyDots d.entries
    → delete_inode e id s ≡ (t, some tt)
    → delete_directory_recursive e (suc fuel) id s ≡ (t, answered true)
unfolding delete_directory_recursive
delete_directory_recursive-dots e fuel id d s t below cached dots gone =
    let got = cached_directory e id d s cached in
    let passed = delete_entries-dots e (delete_directory_recursive e fuel) d.entries s dots in
    rw (below, got, ap (λ r. r.0) got, passed, gone) refl

-- A directory that its path leads to through cached directories, that is not the root, is cached itself and
-- has no entries but "." and "..", with its inode in use, on a sound cache: `delete_directory` answers true
-- without a recursive call; its inode is then no longer in use, so that `read_inode` fails for it, and the
-- directory is no longer cached.
pub delete_directory-dots :
    (e e' : Env) (fuel : ℕ) (path : List ℕ) (id : ℕ) (d : Directory) (s : INodeManager)
    → text_eq path (slash ∷ []) ≡ false
    → cached_walk s.directory_cache root_inode_id (split_path path) ≡ some id
    → IsSound s.cache
    → is_used s id ≡ true
    → (id == root_inode_id) ≡ false
    → (node_at (view s.cache) id).kind ≡ fs_directory
    → s.directory_cache id ≡ some d
    → OnlyDots d.entries
    → let r = delete_directory e (suc fuel) path s in
      (r.1 ≡ answered true)
      × (is_used r.0 id ≡ false)
      × ((read_inode e' id r.0).1 ≡ none)
      × (r.0.directory_cache id ≡ none)
unfolding delete_directory read_inode
delete_directory-dots e e' fuel path id d s not_root leads v used below kind cached dots =
    rw deletes (refl, gone.unused, rw gone.unused refl, gone.forgotten)
  where
    small : id < minus_one
    small = let h : id < max_inodes = ltb→lt id max_inodes (and_left _ _ used) in omega (arith, h)

    first : Gives s (view s.cache) (read_inode e id s) (node_at (view s.cache) id)
    first = read_inode_lem e id s v used

    s1 : INodeManager
    s1 = with_cache first.0 s

    again : Gives s1 (view s1.cache) (read_inode e id s1) (node_at (view s1.cache) id)
    again = read_inode_lem e id s1 first.2.sound used

    deleted : ((delete_inode e id s1).1 ≡ some tt) × Gone id (delete_inode e id s1).0
    deleted = delete_inode-Gone e id s1 _ _ used again.1

    gone : Gone id (delete_inode e id s1).0
    gone = deleted.1

    whole : delete_inode e id s1 ≡ ((delete_inode e id s1).0, some tt)
    whole = ap (λ a. ((delete_inode e id s1).0, a)) deleted.0

    found : resolve_kind e fs_directory path s ≡ (s1, some id)
    found =
        resolve_kind-directory e path id s s1 _ (resolved-cached e path id s not_root leads small)
          first.1 kind

    deletes : delete_directory e (suc fuel) path s ≡ ((delete_inode e id s1).0, answered true)
    deletes =
        rw (delete_directory, found, ap (λ r. r.0) found, below)
          (delete_directory_recursive-dots e fuel id d s1 _ below cached dots whole)
