-- ===== src/Directory/Tests.antt =====
-- Directories at concrete names.
use os_course_design.Prelude.{
  ℕ, ◌+◌, ◌≤◌, ◌≡◌, ◌↔◌, refl, true, false, List, [], ◌∷◌, ◌++◌, Option, none, some, arith, ltb,
  leb, ◌==◌, if◌then◌else◌, length, replicate, All,
}
use os_course_design.Directory.{
  DirectoryEntry, Directory, find_entry, add_entry, remove_entry, serialize, deserialize,
}
use os_course_design.Directory.Entries.{IsValid}
use os_course_design.Directory.Changes.{Adds, add_entry-Adds}
use os_course_design.Directory.Removal.{Removes, remove_entry-Removes}
use os_course_design.Directory.Serial.{deserialize-serialize}

-- "a" and "b"
abbrev entry_a : DirectoryEntry
entry_a = record { inode_id = 5; name = 97 ∷ replicate 63 0; kind = 0 }

abbrev only_a : Directory
only_a = record { dir_inode_id = 1; entries = entry_a ∷ [] }

only_a-IsValid : IsValid only_a
only_a-IsValid = record { distinct = (tt, tt); bounded = omega arith; arrays = (refl, tt) }

add_entry-Adds_example : Adds only_a (98 ∷ []) 6 0 (add_entry only_a (98 ∷ []) 6 0).0 true
unfolding add_entry find_entry os_course_design.Prelude.text_eq os_course_design.Prelude.c_string
add_entry-Adds_example = add_entry-Adds only_a (98 ∷ []) 6 0 only_a-IsValid

remove_entry-Removes_example :
    Removes only_a (97 ∷ []) (record { dir_inode_id = 1; entries = [] }) true
unfolding remove_entry find_entry os_course_design.Prelude.text_eq os_course_design.Prelude.c_string
remove_entry-Removes_example = remove_entry-Removes only_a (97 ∷ []) only_a-IsValid

deserialize-serialize_example :
    deserialize (record { dir_inode_id = 1; entries = [] }) (serialize (1 ∷ 2 ∷ 3 ∷ []) only_a)
    ≡ (only_a, true)
deserialize-serialize_example =
    deserialize-serialize (1 ∷ 2 ∷ 3 ∷ []) only_a (record { dir_inode_id = 1; entries = [] }) refl
      (omega arith) ((omega arith, refl), tt)

-- The same name twice is refused.
refuses_a : (add_entry only_a (97 ∷ []) 6 0).1 ≡ false
unfolding add_entry find_entry os_course_design.Prelude.text_eq os_course_design.Prelude.c_string
refuses_a = refl
