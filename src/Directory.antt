-- ===== src/Directory.antt =====
-- A directory: src/core/directory.h and src/core/directory.cpp, `Directory`. A name in an entry is its
-- array of 64 bytes; a `std::string` is its bytes, and `c_str()` ends at the first NUL.
pub mod Entries
pub mod Changes
pub mod Removal
pub mod Serial
mod Tests
use os_course_design.Prelude.{
  ℕ, zero, suc, ◌+◌, ◌-◌, ◌*◌, Bool, true, false, not, ◌&&◌, ◌||◌, List, [], ◌∷◌, ◌++◌, Option,
  none, some, ltb, leb, ◌==◌, if◌then◌else◌, length, get_or, take, drop, All, same_string, strncpy,
  word_bytes, word_of, u32_mod,
}

pub record DirectoryEntry : Type 0 where
  pub inode_id : ℕ
  pub name : List ℕ
  pub kind : ℕ

pub record Directory : Type 0 where
  pub dir_inode_id : ℕ
  pub entries : List DirectoryEntry

abbrev pub max_entries : ℕ
max_entries = 256

-- `sizeof(DirectoryEntry::name)`
abbrev pub name_size : ℕ
name_size = 64

-- `find_if` by name.
unfoldable pub find_in : List DirectoryEntry → List ℕ → Option DirectoryEntry
find_in [] name = none
find_in (e ∷ es) name = if same_string e.name name then some e else find_in es name

unfoldable pub find_entry : Directory → List ℕ → Option DirectoryEntry
unfolding find_in
find_entry d name = find_in d.entries name

unfoldable pub new_entry : List ℕ → ℕ → ℕ → DirectoryEntry
new_entry name inode_id kind = record {
  inode_id = inode_id;
  name = strncpy (name_size - 1) name ++ 0 ∷ [];
  kind = kind;
}

unfoldable pub add_entry : Directory → List ℕ → ℕ → ℕ → Directory × Bool
add_entry d name inode_id kind =
    if length name == 0 || leb name_size (length name)
    then (d, false)
    else elim (find_entry d name) [
      | some _ ↦ (d, false)
      | none ↦
          if leb max_entries (length d.entries)
          then (d, false)
          else (record d { entries = d.entries ++ new_entry name inode_id kind ∷ [] }, true)
    ]

-- `erase` at the first entry of the name.
pub erase_in : List DirectoryEntry → List ℕ → List DirectoryEntry
erase_in [] name = []
erase_in (e ∷ es) name = if same_string e.name name then es else e ∷ erase_in es name

unfoldable pub remove_entry : Directory → List ℕ → Directory × Bool
unfolding erase_in
remove_entry d name = elim (find_entry d name) [
  | none ↦ (d, false)
  | some _ ↦ (record d { entries = erase_in d.entries name }, true)
]

unfoldable pub is_empty : Directory → Bool
is_empty d = length d.entries == 0

-- The inner loop of `validate`: no later entry has the name.
none_named : List ℕ → List DirectoryEntry → Bool
none_named name [] = true
none_named name (e ∷ es) =
    let rest = none_named name es in if same_string name e.name then false else rest

-- The outer loop.
all_distinct : List DirectoryEntry → Bool
all_distinct [] = true
all_distinct (e ∷ es) = let rest = all_distinct es in if none_named e.name es then rest else false

unfoldable pub validate : Directory → Bool
unfolding none_named all_distinct
validate d = if ltb max_entries (length d.entries) then false else all_distinct d.entries

-- `sizeof(DirectoryEntry)`: id, name, type, and three bytes of padding.
abbrev pub entry_size : ℕ
entry_size = 72

-- The bytes of the entries, as `memcpy` takes them; `pad` is what lies in the padding.
entry_bytes : List ℕ → DirectoryEntry → List ℕ
entry_bytes pad e = word_bytes e.inode_id ++ (e.name ++ e.kind ∷ pad)

entries_bytes : List ℕ → List DirectoryEntry → List ℕ
entries_bytes pad [] = []
entries_bytes pad (e ∷ es) = entry_bytes pad e ++ entries_bytes pad es

unfoldable pub serialize : List ℕ → Directory → List ℕ
unfolding entry_bytes entries_bytes
serialize pad d = word_bytes (length d.entries) ++ entries_bytes pad d.entries

entry_of : List ℕ → DirectoryEntry
entry_of bytes = record {
  inode_id = word_of bytes;
  name = take name_size (drop 4 bytes);
  kind = get_or (drop name_size (drop 4 bytes)) 0 0;
}

entries_of : ℕ → List ℕ → List DirectoryEntry
entries_of zero bytes = []
entries_of (suc count) bytes = entry_of bytes ∷ entries_of count (drop entry_size bytes)

unfoldable pub deserialize : Directory → List ℕ → Directory × Bool
unfolding entry_of entries_of
deserialize d bytes =
    let count = word_of bytes in
    if ltb (length bytes) 4
    then (d, false)
    else if not (length bytes == 4 + count * entry_size) || ltb max_entries count
    then (d, false)
    else (record d { entries = entries_of count (drop 4 bytes) }, true)
