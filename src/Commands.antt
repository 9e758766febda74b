-- ===== src/Commands.antt =====
-- A command line: src/filesystem.cpp, `SimpleFileSystem::split_command`, and the choice of the handler in
-- `handle_command`.
pub mod Words
mod Tests
use os_course_design.Prelude.{
  ℕ, Bool, true, false, not, ◌&&◌, List, [], ◌∷◌, ◌++◌, ◌==◌, if◌then◌else◌, length, text_eq,
}

abbrev pub quote : ℕ
quote = 34

abbrev pub space : ℕ
space = 32

abbrev pub push_arg : List (List ℕ) → List ℕ → List (List ℕ)
push_arg args arg = if length arg == 0 then args else args ++ arg ∷ []

-- The loop over the characters, with `args`, `arg` and `in_quotes`, and the `push_back` behind it.
pub split_from : List (List ℕ) → List ℕ → Bool → List ℕ → List (List ℕ)
split_from args arg in_quotes [] = push_arg args arg
split_from args arg in_quotes (c ∷ cs) =
    let quoted = split_from args arg (not in_quotes) cs in
    let pushed = split_from (push_arg args arg) [] in_quotes cs in
    let added = split_from args (arg ++ c ∷ []) in_quotes cs in
    if c == quote then quoted else if c == space && not in_quotes then pushed else added

unfoldable pub split_command : List ℕ → List (List ℕ)
split_command command = split_from [] [] false command

-- The handlers, the message for another name, and the return of an empty line.
pub data Handler : Type 0 where
  cmd_cd : Handler
  cmd_ls : Handler
  cmd_pwd : Handler
  cmd_disk_info : Handler
  cmd_cache_info : Handler
  cmd_file_info : Handler
  cmd_touch : Handler
  cmd_cat : Handler
  cmd_echo : Handler
  cmd_rm : Handler
  cmd_mkdir : Handler
  cmd_rmdir : Handler
  cmd_edit : Handler
  cmd_help : Handler
  unknown_command : Handler
  no_command : Handler

-- The names, as bytes.
abbrev pub name_cd : List ℕ
name_cd = 99 ∷ 100 ∷ []

abbrev pub name_ls : List ℕ
name_ls = 108 ∷ 115 ∷ []

abbrev pub name_pwd : List ℕ
name_pwd = 112 ∷ 119 ∷ 100 ∷ []

abbrev pub name_df : List ℕ
name_df = 100 ∷ 102 ∷ []

abbrev pub name_cache : List ℕ
name_cache = 99 ∷ 97 ∷ 99 ∷ 104 ∷ 101 ∷ []

abbrev pub name_stat : List ℕ
name_stat = 115 ∷ 116 ∷ 97 ∷ 116 ∷ []

abbrev pub name_touch : List ℕ
name_touch = 116 ∷ 111 ∷ 117 ∷ 99 ∷ 104 ∷ []

abbrev pub name_cat : List ℕ
name_cat = 99 ∷ 97 ∷ 116 ∷ []

abbrev pub name_echo : List ℕ
name_echo = 101 ∷ 99 ∷ 104 ∷ 111 ∷ []

abbrev pub name_rm : List ℕ
name_rm = 114 ∷ 109 ∷ []

abbrev pub name_mkdir : List ℕ
name_mkdir = 109 ∷ 107 ∷ 100 ∷ 105 ∷ 114 ∷ []

abbrev pub name_rmdir : List ℕ
name_rmdir = 114 ∷ 109 ∷ 100 ∷ 105 ∷ 114 ∷ []

abbrev pub name_edit : List ℕ
name_edit = 101 ∷ 100 ∷ 105 ∷ 116 ∷ []

abbrev pub name_help : List ℕ
name_help = 104 ∷ 101 ∷ 108 ∷ 112 ∷ []

-- The chain of comparisons with `args[0]`.
pub handler_of : List ℕ → Handler
handler_of cmd =
    if text_eq cmd name_cd
    then cmd_cd
    else if text_eq cmd name_ls
    then cmd_ls
    else if text_eq cmd name_pwd
    then cmd_pwd
    else if text_eq cmd name_df
    then cmd_disk_info
    else if text_eq cmd name_cache
    then cmd_cache_info
    else if text_eq cmd name_stat
    then cmd_file_info
    else if text_eq cmd name_touch
    then cmd_touch
    else if text_eq cmd name_cat
    then cmd_cat
    else if text_eq cmd name_echo
    then cmd_echo
    else if text_eq cmd name_rm
    then cmd_rm
    else if text_eq cmd name_mkdir
    then cmd_mkdir
    else if text_eq cmd name_rmdir
    then cmd_rmdir
    else if text_eq cmd name_edit
    then cmd_edit
    else if text_eq cmd name_help
    then cmd_help
    else unknown_command

-- The handler and its arguments, the name first.
unfoldable pub handle_command : List ℕ → Handler × List (List ℕ)
unfolding handler_of
handle_command command = elim (split_command command) [
  | [] ↦ (no_command, [])
  | cmd ∷ rest ↦ (handler_of cmd, cmd ∷ rest)
]
