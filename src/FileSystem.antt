-- ===== src/FileSystem.antt =====
-- The file system: src/filesystem.cpp, `SimpleFileSystem::format`, `mount`, `unmount` and the operations on
-- files and directories with their error codes, which are patterns of 32 bits. The objects behind `disk_`,
-- `bitmap_`, `cache_` and `inode_manager_` are the manager's state, which counts only while mounted.
pub mod Codes
pub mod RoundTrip
pub mod Mounting
mod Tests
use os_course_design.Prelude.{
  ℕ, ◌+◌, ◌-◌, ◌*◌, ◌/◌, ◌%◌, Bool, true, false, not, ◌&&◌, ◌||◌, List, [], ◌∷◌, ◌++◌, Option, none,
  some, ltb, ◌==◌, if◌then◌else◌, length, text_eq, take, u32_mod, uint32_max,
}
use os_course_design.Disk.{VirtualDisk, File, mib, create, open_disk}
use os_course_design.Cache.{CacheManager, cache_manager, flush_all}
use os_course_design.Bitmap.{FreeBitmap}
use os_course_design.Bitmap.Persist.{load, save}
use os_course_design.Paths.{block_size, normalize_path, is_valid_filename}
use os_course_design.Handles.{OpenFile, SimpleFileSystem, close_file, is_file_protected}
use os_course_design.Handles
use os_course_design.INode.{
  INode, INodeManager, Env, Action, Done, inode_manager, read_inode, root_inode_id,
}
use os_course_design.Tree.{minus_one, minus_two, minus_three, create_root_directory}
use os_course_design.Files
use os_course_design.Files.{file_name}
use os_course_design.Listing
use os_course_design.Listing.{FileInfo, no_info, Outcome, answered, exhausted}

abbrev pub minus_four : ℕ
minus_four = uint32_max - 3

pub record Volume : Type 0 where
  pub handles : SimpleFileSystem
  pub open handles use {mounted, current_path, open_files}
  pub manager : INodeManager

-- The host file that a disk leaves.
pub file_of : VirtualDisk → File
file_of d = record { file_size = d.size; blocks = d.content; broken = d.bad }

-- The disk object that `mount` and `format` make, with a stream that is not open.
abbrev pub fresh_disk : VirtualDisk
fresh_disk = record {
  disk_size = 256 * mib;
  block_size = block_size;
  total_blocks = 256 * mib / block_size % u32_mod;
  stream = record {
    is_open = false;
    failed = false;
    size = 0;
    content = λ _. [];
    bad = λ _. false;
  };
}

-- The file that the host has after a `format` that answers true. The stream is not open, so the file that an
-- open one would find does not matter.
unfoldable pub format : Volume → ℕ → Option (ℕ → Bool) → Bool → Option File
unfolding file_of
format v size_mb host reopens =
    let (d, ok) = create fresh_disk size_mb host (file_of fresh_disk) reopens in
    if v.mounted then none else if ok then some (file_of d) else none

abbrev pub fresh_bitmap : FreeBitmap
fresh_bitmap = record { bitmap = []; total_blocks = 0; free_blocks = 0 }

abbrev pub is_done : Option Done → Bool
is_done none = false
is_done (some _) = true

-- The root directory is made if its inode cannot be read.
make_missing_root : Env → INodeManager × Option INode → INodeManager × Bool
make_missing_root e (s, some _) = (s, true)
make_missing_root e (s, none) = let (s', made) = create_root_directory e s in (s', is_done made)

-- Steps 4 and 5.
start_manager : Env → INodeManager → INodeManager × Bool
unfolding make_missing_root
start_manager e s = make_missing_root e (read_inode e root_inode_id s)

-- What of the new objects is kept.
abbrev kept_if : INodeManager × Bool → Option INodeManager
kept_if r = if r.1 then some r.0 else none

-- The bytes that `load` wrote behind the vector are taken to have destroyed nothing that is used.
with_bitmap : Env → CacheManager → Option (FreeBitmap × List ℕ) → Option INodeManager
unfolding start_manager
with_bitmap e cache none = none
with_bitmap e cache (some (bitmap, _)) = kept_if (start_manager e (inode_manager bitmap cache))

-- Steps 2 and 3, on an open disk.
start_disk : Env → VirtualDisk → Option INodeManager
unfolding with_bitmap
start_disk e d =
    let (cache', bitmap') =
      load fresh_bitmap (cache_manager d 16 block_size) e.now d.total_blocks in
    with_bitmap e cache' bitmap'

-- The volume is mounted if the objects are there.
abbrev mounted_with : Volume → Option INodeManager → Volume × Bool
mounted_with v none = (v, false)
mounted_with v (some s) =
    (record v { handles = record (v.handles) { mounted = true }; manager = s }, true)

unfoldable pub mount : Env → Option File → Volume → Volume × Bool
unfolding start_disk
mount e file v =
    let (d, opened) = open_disk fresh_disk file in
    let started = (if opened then start_disk e d else none) in
    if v.mounted then (v, false) else mounted_with v started

-- `beyond` lies behind the bytes of the bitmap in memory. The file is what the host then has.
unfoldable pub unmount : Env → List ℕ → Volume → Volume × Option File
unfolding file_of
unmount e beyond v =
    let saved = (save v.manager.bitmap beyond v.manager.cache e.now).0 in
    if v.mounted
    then (
      record v { handles = record (v.handles) { open_files = []; mounted = false } },
      some (file_of (flush_all saved).disk),
    )
    else (v, none)

-- A call of the manager.
abbrev pub on_manager : {A : Type 0} → (INodeManager → INodeManager × A) → Volume → Volume × A
on_manager f v = let (s', a) = f v.manager in (record v { manager = s' }, a)

-- The code of a call that answers false, or 0.
abbrev pub code_if : {A : Type 0} → ℕ → Option A → ℕ
code_if code none = code
code_if code (some _) = 0

abbrev pub code_of : ℕ → Volume × Option Done → Volume × ℕ
code_of code r = (r.0, code_if code r.1)

unfoldable pub get_file_info : Env → List ℕ → Volume → Volume × FileInfo
get_file_info e path v =
    if v.mounted
    then on_manager (Listing.get_file_info e (normalize_path v.current_path path)) v
    else (v, no_info)

unfoldable pub change_directory : Env → List ℕ → Volume → Volume × Bool
change_directory e path v =
    let target_path = normalize_path v.current_path path in
    let (v', info) = get_file_info e target_path v in
    if v.mounted
    then if info.inode_id == 0 || not info.is_directory
      then (v', false)
      else (record v' { handles = record (v'.handles) { current_path = target_path } }, true)
    else (v, false)

unfoldable pub create_file : Env → List ℕ → List ℕ → Volume → Volume × ℕ
create_file e normalized content v =
    if not v.mounted
    then (v, minus_one)
    else if not (is_valid_filename (file_name normalized))
    then (v, minus_two)
    else if is_file_protected v.handles normalized
    then (v, minus_three)
    else code_of minus_four (on_manager (Files.create_file e normalized content) v)

unfoldable pub delete_file : Env → List ℕ → Volume → Volume × ℕ
delete_file e normalized v =
    let (v', info) = on_manager (Listing.get_file_info e normalized) v in
    if not v.mounted
    then (v, minus_one)
    else if is_file_protected v.handles normalized
    then (v, minus_two)
    else if info.inode_id == 0 || info.is_directory
    then (v', minus_three)
    else code_of minus_four (on_manager (Files.delete_file e normalized) v')

unfoldable pub open_file : Env → List ℕ → Volume → Volume × Bool
open_file e path v =
    let normalized = normalize_path v.current_path path in
    let (v', info) = on_manager (Listing.get_file_info e normalized) v in
    let (h, ok) = Handles.open_file (λ _. info.inode_id) v'.handles path in
    if v.mounted then (record v' { handles = h }, ok) else (v, false)

abbrev close_path : List ℕ → Volume → Volume
close_path path v = record v { handles = (close_file v.handles path).0 }

-- The contents stand beside the code if they were read.
unfoldable pub read_file : Env → List ℕ → Volume → Volume × ℕ × Option (List ℕ)
read_file e path v =
    let normalized = normalize_path v.current_path path in
    let opened = (open_file e normalized v).0 in
    let (v', content) = on_manager (Files.read_file e normalized) opened in
    if v.mounted
    then (close_path normalized v', code_if minus_two content, content)
    else (v, minus_one, none)

unfoldable pub write_file : Env → List ℕ → List ℕ → Volume → Volume × ℕ
write_file e path content v =
    let normalized = normalize_path v.current_path path in
    let (v', info) = on_manager (Listing.get_file_info e normalized) v in
    if not v.mounted
    then (v, minus_one)
    else if is_file_protected v.handles normalized
    then (v, minus_two)
    else if info.inode_id == 0
    then create_file e normalized content v'
    else code_of minus_three (on_manager (Files.write_file e normalized content) v')

unfoldable pub create_directory : Env → List ℕ → List ℕ → Volume → Volume × ℕ
create_directory e parent_path name v =
    if not v.mounted
    then (v, minus_one)
    else if not (is_valid_filename name)
    then (v, minus_two)
    else code_of minus_three (on_manager (Files.create_directory e parent_path name) v)

-- `file_path.find(normalized) == 0`
pub has_prefix : List ℕ → List ℕ → Bool
has_prefix prefix path = text_eq (take (length prefix) path) prefix

-- A path with the prefix is open.
pub any_open_in : List ℕ → List OpenFile → Bool
any_open_in normalized [] = false
any_open_in normalized (f ∷ fs) =
    let rest = any_open_in normalized fs in if has_prefix normalized f.path then true else rest

-- The code after the recursive deletion; `none` is a recursion that is deeper than the fuel.
abbrev pub code_of_outcome : Outcome → Option ℕ
code_of_outcome (answered ok) = some (if ok then 0 else minus_four)
code_of_outcome exhausted = none

unfoldable pub delete_directory : Env → ℕ → List ℕ → Volume → Volume × Option ℕ
unfolding any_open_in has_prefix
delete_directory e fuel normalized v =
    let (v', info) = on_manager (Listing.get_file_info e normalized) v in
    let (v'', outcome) = on_manager (Listing.delete_directory e fuel normalized) v' in
    if not v.mounted
    then (v, some minus_one)
    else if info.inode_id == 0 || not info.is_directory
    then (v', some minus_two)
    else if any_open_in normalized v.open_files
    then (v', some minus_three)
    else (v'', code_of_outcome outcome)

unfoldable pub list_directory : Env → List ℕ → Volume → Volume × List FileInfo
list_directory e path v =
    if v.mounted
    then on_manager (Listing.list_directory e (normalize_path v.current_path path)) v
    else (v, [])
