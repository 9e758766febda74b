-- ===== src/Handles.antt =====
-- The files that are open: src/filesystem.cpp, `SimpleFileSystem::open_file`, `close_file` and
-- `is_file_protected`. The inode id that `get_file_info` finds for a path, 0 if there is none, is an
-- argument; a path in `open_files_` is there once, with the number of its openings.
pub mod Counts
pub mod Calls
pub mod Protect
mod Tests
use os_course_design.Prelude.{
  ℕ, zero, suc, ◌+◌, ◌-◌, Bool, true, false, not, ◌&&◌, ◌||◌, List, [], ◌∷◌, ◌++◌, Option, none,
  some, ltb, leb, ◌==◌, if◌then◌else◌, text_eq,
}
use os_course_design.Paths.{normalize_path}

pub record OpenFile : Type 0 where
  pub path : List ℕ
  pub count : ℕ

pub record SimpleFileSystem : Type 0 where
  pub mounted : Bool
  pub current_path : List ℕ
  pub open_files : List OpenFile

-- `open_files_.find(path)`
unfoldable pub find_open : List OpenFile → List ℕ → Option ℕ
find_open [] path = none
find_open (f ∷ fs) path = if text_eq f.path path then some f.count else find_open fs path

-- `open_files_[path]++`, which makes the entry where there is none.
pub increment : List OpenFile → List ℕ → List OpenFile
increment [] path = record { path = path; count = 1 } ∷ []
increment (f ∷ fs) path =
    if text_eq f.path path then record f { count = f.count + 1 } ∷ fs else f ∷ increment fs path

-- `it->second--`, and `erase(it)` at 0.
pub decrement : List OpenFile → List ℕ → List OpenFile
decrement [] path = []
decrement (f ∷ fs) path =
    if text_eq f.path path
    then if f.count - 1 == 0 then fs else record f { count = f.count - 1 } ∷ fs
    else f ∷ decrement fs path

unfoldable pub open_file : (List ℕ → ℕ) → SimpleFileSystem → List ℕ → SimpleFileSystem × Bool
open_file inode_id s path =
    let normalized = normalize_path s.current_path path in
    if s.mounted
    then if inode_id normalized == 0
      then (s, false)
      else (record s { open_files = increment s.open_files normalized }, true)
    else (s, false)

abbrev pub is_open : Option ℕ → Bool
is_open none = false
is_open (some count) = ltb 0 count

unfoldable pub close_file : SimpleFileSystem → List ℕ → SimpleFileSystem × Bool
close_file s path =
    let normalized = normalize_path s.current_path path in
    if s.mounted
    then if is_open (find_open s.open_files normalized)
      then (record s { open_files = decrement s.open_files normalized }, true)
      else (s, false)
    else (s, false)

unfoldable pub is_file_protected : SimpleFileSystem → List ℕ → Bool
is_file_protected s path = is_open (find_open s.open_files path)
