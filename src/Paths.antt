-- ===== src/Paths.antt =====
-- Paths and names: src/core/inode.cpp, `INodeManager::split_path`, `normalize_path`, `is_valid_filename`
-- and `calculate_blocks_needed`, and src/filesystem.cpp, `SimpleFileSystem::normalize_path`. A
-- `std::string` is the list of its bytes.
pub mod Split
pub mod Collapse
pub mod Child
pub mod Blocks
mod Tests
use os_course_design.Prelude.{
  ℕ, zero, suc, ◌+◌, ◌-◌, ◌*◌, ◌/◌, Bool, true, false, not, ◌&&◌, ◌||◌, List, [], ◌∷◌, ◌++◌, ltb,
  leb, ◌==◌, if◌then◌else◌, length, drop, text_eq, add32, sub32, u32_mod,
}

abbrev pub slash : ℕ
slash = 47

-- "." and ".."
abbrev pub dot : List ℕ
dot = 46 ∷ []

abbrev pub dot_dot : List ℕ
dot_dot = 46 ∷ 46 ∷ []

abbrev pub push_char : ℕ → List (List ℕ) → List (List ℕ)
push_char c [] = (c ∷ []) ∷ []
push_char c (t ∷ ts) = (c ∷ t) ∷ ts

-- The texts that `std::getline(ss, item, '/')` reads, one after the other: the text behind the last
-- slash is not read if it is empty.
unfoldable pub items : List ℕ → List (List ℕ)
items [] = []
items (c ∷ cs) = if c == slash then [] ∷ items cs else push_char c (items cs)

-- `std::vector::pop_back` if the vector is not empty.
pub pop_back : List (List ℕ) → List (List ℕ)
pop_back [] = []
pop_back (x ∷ []) = []
pop_back (x ∷ y ∷ xs) = x ∷ pop_back (y ∷ xs)

-- The body of the loop over the items.
unfoldable pub visit : List (List ℕ) → List ℕ → List (List ℕ)
visit components item =
    if length item == 0 || text_eq item dot
    then components
    else if text_eq item dot_dot
    then pop_back components
    else components ++ item ∷ []

unfoldable pub visit_all : List (List ℕ) → List (List ℕ) → List (List ℕ)
visit_all components [] = components
visit_all components (item ∷ rest) = visit_all (visit components item) rest

unfoldable pub split_path : List ℕ → List (List ℕ)
split_path path = visit_all [] (items path)

-- `result += "/" + comp`
unfoldable pub join : List (List ℕ) → List ℕ
join [] = []
join (c ∷ cs) = slash ∷ c ++ join cs

abbrev pub starts_with_slash : List ℕ → Bool
starts_with_slash [] = false
starts_with_slash (c ∷ cs) = c == slash

unfoldable pub full_path : List ℕ → List ℕ → List ℕ
full_path current path =
    if length path == 0
    then current
    else if starts_with_slash path
    then path
    else if text_eq current (slash ∷ [])
    then slash ∷ path
    else current ++ slash ∷ path

-- The components, with the first item taken off an absolute path.
unfoldable pub components_of : List ℕ → List (List ℕ)
components_of full =
    visit_all [] (if starts_with_slash full then drop 1 (items full) else items full)

abbrev pub rebuild : List (List ℕ) → List ℕ
rebuild [] = slash ∷ []
rebuild (c ∷ cs) = join (c ∷ cs)

-- `SimpleFileSystem::normalize_path`, with `current_path_`.
unfoldable pub normalize_path : List ℕ → List ℕ → List ℕ
normalize_path current path = rebuild (components_of (full_path current path))

-- The loop of `INodeManager::normalize_path` that erases a slash behind a slash, at a byte and what
-- follows it.
pub erase_repeated : ℕ → List ℕ → List ℕ
erase_repeated c [] = c ∷ []
erase_repeated c (d ∷ rest) =
    if c == slash && d == slash then erase_repeated c rest else c ∷ erase_repeated d rest

-- `pop_back` of a last slash.
pub drop_last_slash : List ℕ → List ℕ
drop_last_slash [] = []
drop_last_slash (c ∷ []) = if c == slash then [] else c ∷ []
drop_last_slash (c ∷ d ∷ rest) = c ∷ drop_last_slash (d ∷ rest)

abbrev pub trim_end : List ℕ → List ℕ
trim_end text = if ltb 1 (length text) then drop_last_slash text else text

-- `INodeManager::normalize_path`
unfoldable pub collapse_path : List ℕ → List ℕ
collapse_path [] = slash ∷ []
collapse_path (c ∷ cs) = if c == slash then trim_end (erase_repeated c cs) else slash ∷ c ∷ cs

abbrev pub is_illegal : ℕ → Bool
is_illegal c =
    c == slash
    || (c == 0
        || (c == 92
            || (c == 58
                || (c == 42 || (c == 63 || (c == 34 || (c == 60 || (c == 62 || c == 124))))))))

unfoldable pub all_legal : List ℕ → Bool
all_legal [] = true
all_legal (c ∷ cs) = let rest = all_legal cs in if is_illegal c then false else rest

unfoldable pub is_valid_filename : List ℕ → Bool
is_valid_filename name = if length name == 0 || ltb 63 (length name) then false else all_legal name

abbrev pub block_size : ℕ
block_size = 4096

unfoldable pub calculate_blocks_needed : ℕ → ℕ
calculate_blocks_needed size = sub32 (add32 size block_size) 1 / block_size
