-- ===== src/FileSystem/Mounting.antt =====
-- What `mount` finds of the files of an earlier session.
use os_course_design.Prelude.{
  ℕ, ◌≡◌, refl, subst, true, false, List, [], ◌∷◌, Option, none, some, arith, inl, inr,
  Option-cases, Bool-cases, same_string, text_eq,
}
use os_course_design.Disk.{VirtualDisk, File, open_disk}
use os_course_design.Cache.{CacheManager}
use os_course_design.Bitmap.{FreeBitmap}
use os_course_design.Paths.{slash, dot, dot_dot, split_path, normalize_path}
use os_course_design.INode.{INodeManager, Env, read_inode, inode_manager, root_inode_id}
use os_course_design.Tree.{create_root_directory, root_entries}
use os_course_design.Tree.Root.{
  create_root_directory-Caches, find_entry-root_entries, resolved_nowhere,
}
use os_course_design.Listing.{no_info}
use os_course_design.Listing.Missing.{get_file_info-nowhere}
use os_course_design.FileSystem.{
  Volume, mount, start_disk, with_bitmap, start_manager, make_missing_root, get_file_info,
  fresh_disk,
}

-- The manager knows the root directory that was just made.
abbrev IsFresh : INodeManager → Type 0
IsFresh s = s.directory_cache root_inode_id ≡ some root_entries.0

abbrev FreshIf : Option INodeManager → Type 0
FreshIf none = Unit
FreshIf (some s) = IsFresh s

-- A new manager has no inode in use, so that the root is made again.
start_manager-IsFresh :
    (e : Env) (bitmap : FreeBitmap) (cache : CacheManager)
    → (start_manager e (inode_manager bitmap cache)).1 ≡ true
    → IsFresh (start_manager e (inode_manager bitmap cache)).0
unfolding start_manager make_missing_root read_inode inode_manager
start_manager-IsFresh e bitmap cache h =
    elim (Option-cases ((create_root_directory e (inode_manager bitmap cache)).1)) [
      | inl failed ↦ absurd (ground (arith, rw failed at h))
      | inr (_, made) ↦ create_root_directory-Caches e (inode_manager bitmap cache) made
    ]

with_bitmap-IsFresh :
    (e : Env) (cache : CacheManager) (bitmap : Option (FreeBitmap × List ℕ)) (s : INodeManager)
    → with_bitmap e cache bitmap ≡ some s
    → IsFresh s
unfolding with_bitmap
with_bitmap-IsFresh e cache none s h = absurd (ground (arith, h))
with_bitmap-IsFresh e cache (some (bitmap, over)) s h =
    elim (Bool-cases ((start_manager e (inode_manager bitmap cache)).1)) [
      | inr failed ↦ absurd (ground (arith, rw failed at h))
      | inl ok ↦ subst FreshIf (rw ok at h) (start_manager-IsFresh e bitmap cache ok)
    ]

start_disk-IsFresh :
    (e : Env) (d : VirtualDisk) (s : INodeManager) → start_disk e d ≡ some s → IsFresh s
unfolding start_disk
start_disk-IsFresh e d s h = with_bitmap-IsFresh e _ _ s h

-- A volume that was mounted has a manager that knows the new root directory alone.
mount-IsFresh :
    (e : Env) (file : Option File) (v : Volume)
    → (mount e file v).1 ≡ true
    → ((mount e file v).0.mounted ≡ true)
      × ((mount e file v).0.current_path ≡ v.current_path)
      × IsFresh (mount e file v).0.manager
unfolding mount
mount-IsFresh e file v h = elim (Bool-cases (v.mounted)) [
  | inl before ↦ absurd (ground (arith, rw before at h))
  | inr new ↦ elim (Bool-cases ((open_disk fresh_disk file).1)) [
    | inr closed ↦ absurd (ground (arith, rw (new, closed) at h))
    | inl opened ↦ elim (Option-cases (start_disk e (open_disk fresh_disk file).0)) [
      | inl failed ↦ absurd (ground (arith, rw (new, opened, failed) at h))
      | inr (s, started) ↦ rw (new, opened, started) (refl, refl, start_disk-IsFresh e _ s started)
    ]
  ]
]

-- After a successful `mount`, whatever the disk holds, `get_file_info` of any path whose first name is
-- neither "." nor ".." says that there is no such file, since the root directory is made anew. The bytes
-- that `load` may write behind the vector of the bitmap are taken to destroy nothing that is used.
pub get_file_info-mount :
    (e e' : Env) (file : Option File) (v : Volume) (path name : List ℕ) (rest : List (List ℕ))
    → (mount e file v).1 ≡ true
    → split_path (normalize_path v.current_path path) ≡ name ∷ rest
    → text_eq (normalize_path v.current_path path) (slash ∷ []) ≡ false
    → same_string dot name ≡ false
    → same_string dot_dot name ≡ false
    → (get_file_info e' path (mount e file v).0).1 ≡ no_info
unfolding get_file_info
get_file_info-mount e e' file v path name rest ok splits below a b =
    let (mounted', same_path, fresh) = mount-IsFresh e file v ok in
    rw
      (
        mounted',
        same_path,
        get_file_info-nowhere e' _ _ (
            resolved_nowhere e' (mount e file v).0.manager root_entries.0 _ name rest fresh
              (find_entry-root_entries name a b) splits below),
      )
      refl
