-- ===== src/Handles/Tests.antt =====
-- Opening and closing a file twice.
use os_course_design.Prelude.{ℕ, ◌+◌, ◌<◌, ◌≡◌, ◌⊎◌, refl, true, false, List, [], ◌∷◌, arith}
use os_course_design.Paths.{normalize_path}
use os_course_design.Handles.{SimpleFileSystem, open_file, close_file, is_file_protected}
use os_course_design.Handles.Counts.{opened, IsValid}
use os_course_design.Handles.Calls.{Counts, open_file-Counts}
use os_course_design.Handles.Protect.{close_file-open_file}

-- "/a" is open once.
abbrev open_a : SimpleFileSystem
open_a = record {
  mounted = true;
  current_path = 47 ∷ [];
  open_files = record { path = 47 ∷ 97 ∷ []; count = 1 } ∷ [];
}

open_a-IsValid : IsValid open_a.open_files
open_a-IsValid = (omega arith, tt, tt)

-- Every path has inode 3.
abbrev inode_id : List ℕ → ℕ
inode_id path = 3

open_file-Counts_example :
    (((open_file inode_id open_a (97 ∷ [])).1 ≡ true)
      × (open_a.mounted ≡ true)
      × (0 < inode_id (normalize_path open_a.current_path (97 ∷ [])))
      × Counts open_a (97 ∷ []) (λ n. n + 1) (open_file inode_id open_a (97 ∷ [])).0)
    ⊎ ((open_file inode_id open_a (97 ∷ []) ≡ (open_a, false))
        × ((open_a.mounted ≡ false)
            ⊎ (inode_id (normalize_path open_a.current_path (97 ∷ [])) ≡ 0)))
open_file-Counts_example = open_file-Counts inode_id open_a (97 ∷ []) open_a-IsValid

-- What a second opening and its closing leave.
abbrev twice : SimpleFileSystem
twice = (open_file inode_id open_a (97 ∷ [])).0

close_file-open_file_example :
    (is_file_protected twice (normalize_path open_a.current_path (97 ∷ [])) ≡ true)
    × ((close_file twice (97 ∷ [])).1 ≡ true)
    × IsValid (close_file twice (97 ∷ [])).0.open_files
    × ((q : List ℕ)
        → opened (close_file twice (97 ∷ [])).0.open_files q ≡ opened open_a.open_files q)
unfolding open_file
close_file-open_file_example = close_file-open_file inode_id open_a (97 ∷ []) open_a-IsValid refl
