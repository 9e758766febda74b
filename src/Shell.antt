-- ===== src/Shell.antt =====
-- What the commands do: src/filesystem.cpp, the `cmd_` functions that call an operation and `handle_command` with
-- them. What is printed is a `Reply`; a call past the end of the arguments is `overrun`.
pub mod Echo
use os_course_design.Prelude.{
  ℕ, ◌+◌, ◌-◌, Bool, true, false, not, ◌||◌, List, [], ◌∷◌, ◌++◌, Option, none, some, ltb, ◌==◌,
  if◌then◌else◌, length, get_or, drop, text_eq,
}
use os_course_design.Paths.{slash, dot, normalize_path}
use os_course_design.Commands.{handle_command}
use os_course_design.Commands
use os_course_design.INode.{Env}
use os_course_design.Files.{parent_path, file_name}
use os_course_design.Listing.{FileInfo}
use os_course_design.FileSystem.{
  Volume, create_file, delete_file, read_file, write_file, create_directory, delete_directory,
  get_file_info, change_directory, list_directory,
}

-- What the user is told.
pub data Reply : Type 0 where
  usage : Reply
  code : ℕ → Reply
  shown : List ℕ → Reply
  told : FileInfo → Reply
  listed : List FileInfo → Reply
  moved : Bool → Reply
  printed : Reply
  overrun : Reply
  unending : Reply

-- `args[i]`
abbrev pub arg : List (List ℕ) → ℕ → List ℕ
arg args i = get_or args i []

abbrev pub replied : Volume × ℕ → Volume × Reply
replied r = (r.0, code r.1)

unfoldable pub cmd_cd : Env → List (List ℕ) → Volume → Volume × Reply
cmd_cd e args v =
    let (v', ok) = change_directory e (arg args 1) v in
    if ltb 1 (length args) then (v', moved ok) else (v, overrun)

unfoldable pub cmd_ls : Env → List (List ℕ) → Volume → Volume × Reply
cmd_ls e args v =
    let path = (if ltb 1 (length args) then arg args 1 else dot) in
    let (v', infos) = list_directory e (normalize_path v.current_path path) v in (v', listed infos)

unfoldable pub cmd_file_info : Env → List (List ℕ) → Volume → Volume × Reply
cmd_file_info e args v =
    let (v', info) = get_file_info e (normalize_path v.current_path (arg args 1)) v in
    if ltb (length args) 2 then (v, usage) else (v', told info)

unfoldable pub cmd_touch : Env → List (List ℕ) → Volume → Volume × Reply
cmd_touch e args v =
    if ltb (length args) 2
    then (v, usage)
    else replied (create_file e (normalize_path v.current_path (arg args 1)) [] v)

-- The contents are printed if they were read, the code otherwise.
abbrev shown_or_code : ℕ → Option (List ℕ) → Reply
shown_or_code result none = code result
shown_or_code result (some content) = shown content

unfoldable pub cmd_cat : Env → List (List ℕ) → Volume → Volume × Reply
cmd_cat e args v =
    let (v', result, content) = read_file e (arg args 1) v in
    if ltb (length args) 2 then (v, usage) else (v', shown_or_code result content)

-- ">"
abbrev pub redirect : List ℕ
redirect = 62 ∷ []

-- The loop of `cmd_echo`: the words up to the first ">", with `first` at `i == 1`.
pub words_before : Bool → List (List ℕ) → List ℕ
words_before first [] = []
words_before first (word ∷ rest) =
    let later = words_before false rest in
    if text_eq word redirect then [] else (if first then word else 32 ∷ word) ++ later

unfoldable pub echo_content : List (List ℕ) → List ℕ
unfolding words_before
echo_content args = if ltb 3 (length args) then words_before true (drop 1 args) else []

-- `args.back()` is the last of at least three arguments.
unfoldable pub cmd_echo : Env → List (List ℕ) → Volume → Volume × Reply
cmd_echo e args v =
    if ltb (length args) 3 || not (text_eq (arg args (length args - 2)) redirect)
    then (v, usage)
    else replied (write_file e (arg args (length args - 1)) (echo_content args) v)

unfoldable pub cmd_rm : Env → List (List ℕ) → Volume → Volume × Reply
cmd_rm e args v =
    if ltb (length args) 2
    then (v, usage)
    else replied (delete_file e (normalize_path v.current_path (arg args 1)) v)

unfoldable pub cmd_mkdir : Env → List (List ℕ) → Volume → Volume × Reply
cmd_mkdir e args v =
    let normalized = normalize_path v.current_path (arg args 1) in
    if ltb (length args) 2
    then (v, usage)
    else replied (create_directory e (parent_path normalized) (file_name normalized) v)

-- The reply to a deletion, which may not end.
abbrev code_or_unending : Option ℕ → Reply
code_or_unending none = unending
code_or_unending (some result) = code result

unfoldable pub cmd_rmdir : Env → ℕ → List (List ℕ) → Volume → Volume × Reply
cmd_rmdir e fuel args v =
    let (v', result) = delete_directory e fuel (normalize_path v.current_path (arg args 1)) v in
    if ltb (length args) 2 then (v, usage) else (v', code_or_unending result)

-- The loop of `cmd_edit` over the lines of the input, up to ".exit".
pub edited : List ℕ → List (List ℕ) → List ℕ
edited new_content [] = new_content
edited new_content (line ∷ rest) =
    let more =
      edited ((if length new_content == 0 then [] else new_content ++ 10 ∷ []) ++ line) rest in
    if text_eq line (46 ∷ 101 ∷ 120 ∷ 105 ∷ 116 ∷ []) then new_content else more

unfoldable pub cmd_edit : Env → List (List ℕ) → List (List ℕ) → Volume → Volume × Reply
unfolding edited
cmd_edit e lines args v =
    if ltb (length args) 2
    then (v, usage)
    else replied (write_file e (arg args 1) (edited [] lines) (read_file e (arg args 1) v).0)

-- `handle_command`: `lines` is what the user types into `cmd_edit`.
unfoldable pub run_command : Env → ℕ → List (List ℕ) → List ℕ → Volume → Volume × Reply
run_command e fuel lines command v =
    let (handler, args) = handle_command command in
    elim handler [
      | Commands.cmd_cd ↦ cmd_cd e args v
      | Commands.cmd_ls ↦ cmd_ls e args v
      | Commands.cmd_pwd ↦ (v, shown v.current_path)
      | Commands.cmd_disk_info ↦ (v, printed)
      | Commands.cmd_cache_info ↦ (v, printed)
      | Commands.cmd_file_info ↦ cmd_file_info e args v
      | Commands.cmd_touch ↦ cmd_touch e args v
      | Commands.cmd_cat ↦ cmd_cat e args v
      | Commands.cmd_echo ↦ cmd_echo e args v
      | Commands.cmd_rm ↦ cmd_rm e args v
      | Commands.cmd_mkdir ↦ cmd_mkdir e args v
      | Commands.cmd_rmdir ↦ cmd_rmdir e fuel args v
      | Commands.cmd_edit ↦ cmd_edit e lines args v
      | Commands.cmd_help ↦ (v, printed)
      | Commands.unknown_command ↦ (v, printed)
      | Commands.no_command ↦ (v, printed)
    ]
