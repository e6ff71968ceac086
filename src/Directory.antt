-- ===== src/Directory.antt =====
-- 02-Linux-File-System: the directory lister, the loop that asks for a file name, and the search in a
-- tree of directories.
pub mod Asking
pub mod Writing
pub mod Linking
pub mod Searching
use gemtek_sw_training.Prelude.{
  ◌==◌, if◌then◌else◌, ℕ, ◌-◌, Bool, true, false, not, ◌||◌, ℤ, negsuc, eq_ℤ, Option, none, some,
  List, [], ◌∷◌, ◌++◌, Bytes, codes,
}
use gemtek_sw_training.CString.{str_eq, line_of}
use gemtek_sw_training.FileHandle.{Files, check_empty_dir, check_file_exist, is_valid_file_name}

-- `get_type_of_file` of 01-Directory-Entry: the name of a `d_type`, by the numbers of <dirent.h>; the
-- cleared buffer is left where no case fits.
unfoldable pub get_type_of_file : ℕ → Bytes
get_type_of_file d_type =
    if d_type == 0
    then codes "Unknown Type"
    else if d_type == 8
    then codes "Regular File"
    else if d_type == 4
    then codes "Directory"
    else if d_type == 12
    then codes "Local-domain Socket"
    else if d_type == 2
    then codes "Character Device"
    else if d_type == 6
    then codes "Block Device"
    else if d_type == 10
    then codes "Symbolic Link"
    else []

-- The same function in 02-Write-To-File.
unfoldable pub get_type_of_written_file : ℕ → Bytes
get_type_of_written_file d_type = get_type_of_file d_type

-- An entry of a directory with its type.
pub record Dirent : Type 0 where
  pub d_name : Bytes
  pub d_type : ℕ

abbrev pub is_dot : Bytes → Bool
is_dot name = str_eq name (codes ".") || str_eq name (codes "..")

-- `print_from_directory`: the lines that are printed.
unfoldable pub print_entries : List Dirent → List Bytes
unfolding str_eq get_type_of_file
print_entries [] = []
print_entries (e ∷ es) =
    let rest = print_entries es in
    if is_dot e.d_name then rest else (e.d_name ++ (codes ": " ++ get_type_of_file e.d_type)) ∷ rest

-- The codes of `error_directory_t` and `error_file_status_t`.
pub data Status : Type 0 where
  error_none file_not_exist_in_dir file_exist_in_dir error_open_directory error_close_directory :
      Status

-- `none`: `opendir` fails. The second argument is what `closedir` returns.
unfoldable pub print_from_directory : Option (List Dirent) → ℤ → Status × List Bytes
unfolding print_entries
print_from_directory none ret = (error_open_directory, [])
print_from_directory (some es) ret =
    (if eq_ℤ ret (negsuc 0) then error_close_directory else error_none, print_entries es)

-- The text before the first newline: `s[strcspn(s, "\n")] = '\0'`.
unfoldable pub before_newline : Bytes → Bytes
before_newline [] = []
before_newline (c ∷ s) = let rest = before_newline s in if c == b'\n' then [] else c ∷ rest

-- `fgets` of a typed line into a buffer of this size, without its newline; `__fpurge` has dropped what
-- an earlier line left over.
unfoldable pub read_input : ℕ → Bytes → Bytes
unfolding before_newline line_of
read_input buffer typed = before_newline (line_of (buffer - 1) typed).0

-- The input of 01-Directory-Entry and of 02-Write-To-File, with their sizes.
abbrev pub max_directory_name : ℕ
max_directory_name = 256

unfoldable pub get_input_from_user : Bytes → Bytes
get_input_from_user typed = read_input max_directory_name typed

unfoldable pub get_directory_from_user : Bytes → Bytes
get_directory_from_user typed = read_input 100 typed

-- The copies in 02-Write-To-File and 03-Link-To-File of the functions of file_handle.c.
unfoldable pub check_empty_dir_written : Bytes → Bool
check_empty_dir_written name = check_empty_dir name

unfoldable pub check_file_exist_written : Files → Option Bytes → ℕ
check_file_exist_written fs name = check_file_exist fs name

unfoldable pub check_empty_dir_linked : Bytes → Bool
check_empty_dir_linked name = check_empty_dir name

abbrev pub max_file_size : ℕ
max_file_size = 255

unfoldable pub is_valid_file_name_linked : Bytes → Bool
is_valid_file_name_linked name = is_valid_file_name max_file_size name

-- `while (!check_file_exist(file_name))` over the lines that are typed; `none`: it still asks.
unfoldable pub ask_again : Files → List Bytes → Bytes → Bytes → Option (Bool × Bytes)
unfolding get_input_from_user check_file_exist_written str_eq
ask_again fs [] pre_file_name file_name =
    if check_file_exist_written fs (some file_name) == 0 then none else some (true, file_name)
ask_again fs (t ∷ ts) pre_file_name file_name =
    let name = get_input_from_user t in
    let more = ask_again fs ts pre_file_name name in
    if check_file_exist_written fs (some file_name) == 0
    then (if str_eq name (codes "e") then some (false, pre_file_name) else more)
    else some (true, file_name)

-- `get_file_name`: the result and what is left in `file_name`.
unfoldable pub get_file_name : Files → List Bytes → Bytes → Option (Bool × Bytes)
unfolding ask_again
get_file_name fs [] pre_file_name = none
get_file_name fs (t ∷ ts) pre_file_name =
    let name = get_input_from_user t in
    if str_eq name (codes "e")
    then some (false, pre_file_name)
    else ask_again fs ts pre_file_name name

-- `write_to_file`
unfoldable pub write_to_file : Files → Bytes → Bytes → Files
write_to_file fs dir text name = if str_eq name dir then some text else fs name

-- `get_input_from_user` of 03-Link-To-File: false at `!exit`.
unfoldable pub get_linked_input : Bytes → Bool × Bytes
get_linked_input typed =
    let str = read_input 255 typed in (if str_eq str (codes "!exit") then false else true, str)

-- Its first result is not looked at.
unfoldable pub get_filepath_from_user : Bytes → Bool × Bytes
unfolding get_linked_input
get_filepath_from_user typed =
    let filepath = (get_linked_input typed).1 in
    (
      if not (check_empty_dir_linked filepath)
          then false
          else if not (is_valid_file_name_linked filepath)
          then false
          else true,
      filepath,
    )

-- What `readdir` lists, in its order, with what stands in each directory, and whether that opens.
pub data Entries : Type 0 where
  no_more : Entries
  file : Bytes → Entries → Entries
  folder : Bytes → Bool → Entries → Entries → Entries

-- The `while` loop of `search_file_in_directory` and the status behind it. The search in a directory
-- below writes `ret_dir` too, and its status is not looked at.
unfoldable pub search_entries : Bytes → Bytes → Entries → Bytes → Status × Bytes
unfolding str_eq
search_entries dir file_name no_more ret_dir = (file_not_exist_in_dir, ret_dir)
search_entries dir file_name (file name rest) ret_dir =
    let later = search_entries dir file_name rest ret_dir in
    if str_eq name file_name then (file_exist_in_dir, dir ++ b'/' ∷ file_name) else later
search_entries dir file_name (folder name opens inner rest) ret_dir =
    let below = search_entries name file_name inner ret_dir in
    let after_below = search_entries dir file_name rest below.1 in
    let after = search_entries dir file_name rest ret_dir in
    if is_dot name then after else if opens then after_below else after

-- `none`: `opendir` fails.
unfoldable pub search_file_in_directory : Bytes → Bytes → Option Entries → Bytes → Status × Bytes
unfolding search_entries
search_file_in_directory dir file_name none ret_dir = (error_open_directory, ret_dir)
search_file_in_directory dir file_name (some es) ret_dir = search_entries dir file_name es ret_dir
