-- ===== src/FileHandle.antt =====
-- The file helpers of 04-IPC-Synchronization: src/file_handle.c, with the copies of
-- `check_empty_dir` and `is_valid_file_name` in 02-Linux-File-System/03-Link-To-File.
pub mod Names
pub mod Paths
pub mod Read
pub mod LastLine
use gemtek_sw_training.Prelude.{
  ltb, ◌==◌, if◌then◌else◌, length, get_or, ℕ, ◌-◌, Bool, true, false, not, ◌||◌, Option, none,
  some, [], ◌∷◌, ◌++◌, Bytes, codes, ℤ, negsuc, eq_ℤ,
}
use gemtek_sw_training.CString.{has_char, after_last, c_str, lines, last_of, str_eq}

-- The files by name: what `fopen(name, "r")` finds, `none` where it returns NULL.
abbrev pub Files : Type 0
Files = Bytes → Option Bytes

-- The loop of `file_handle_read`. A `char` is signed, so the byte 0xff compares equal to EOF.
copy_loop : Bytes → Bytes → Bytes
copy_loop [] text = text
copy_loop (ch ∷ rest) text =
    let more =
      copy_loop rest (if ch == b'\n' then (text ++ b'|' ∷ b' ' ∷ []) else (text ++ ch ∷ [])) in
    if ch == 0xff then text else more

-- The returned code, and what `text` holds before the NUL that the loop appends.
unfoldable pub file_handle_read : Files → Bytes → Bytes → ℕ × Bytes
unfolding copy_loop
file_handle_read fs dir text = elim (fs dir) [
  | none ↦ (1, text)
  | some content ↦ (0, copy_loop content [])
]

-- `fopen(dir, "a")`, the text, `fclose`: a file that is not there is created.
unfoldable pub file_handle_write : Files → Bytes → Bytes → Files
unfolding str_eq
file_handle_write fs dir text name =
    if str_eq name dir
    then elim (fs dir) [ none ↦ some text | some content ↦ some (content ++ text) ]
    else fs name

abbrev is_path_mark : ℕ → Bool
is_path_mark c = (c == b'\\') || (c == b'/') || (c == b'.')

unfoldable pub check_empty_dir : Bytes → Bool
check_empty_dir [] = false
check_empty_dir (c ∷ s) = not (is_path_mark c) || check_empty_dir s

-- `file_name == NULL` is `none`.
unfoldable pub check_file_exist : Files → Option Bytes → ℕ
check_file_exist fs none = 0
check_file_exist fs (some name) =
    if not (check_empty_dir name) then 0 else elim (fs name) [ some _ ↦ 1 | none ↦ 0 ]

abbrev invalid_chars : Bytes
invalid_chars = codes "\\/:*?\"<>|"

-- `for (i …) if (strchr(file_name, invalid_chars[i])) return false`
any_char : Bytes → Bytes → Bool
any_char [] name = false
any_char (c ∷ cs) name = has_char c name || any_char cs name

abbrev is_space_or_period : ℕ → Bool
is_space_or_period c = (c == b' ') || (c == b'.')

-- `limit` is FILENAME_MAX in one copy and MAX_FILE_SIZE in the other.
unfoldable pub is_valid_file_name : ℕ → Bytes → Bool
unfolding any_char has_char
is_valid_file_name limit name =
    if (length name == 0) || ltb limit (length name)
    then false
    else if any_char invalid_chars name
    then false
    else if is_space_or_period (get_or name 0 0)
        || is_space_or_period (get_or name (length name - 1) 0)
    then false
    else true

-- `ext` behind `strrchr`: the empty text, or what stands behind the period.
abbrev pub extension : Option Bytes → Bytes
extension none = []
extension (some t) = t

unfoldable pub create_new_file_name : Bytes → Bytes → Bytes → Bytes
unfolding after_last
create_new_file_name file_name output_name output_dir =
    let ext = extension (after_last b'.' file_name) in
    (((output_dir ++ b'/' ∷ []) ++ output_name) ++ b'.' ∷ []) ++ ext

-- `fseek` succeeds on a regular file, and `ftell` at its end is the length. -1 is `none`.
unfoldable pub get_file_size : Files → Bytes → Option ℕ
get_file_size fs name = elim (fs name) [ none ↦ none | some content ↦ some (length content) ]

abbrev pub max_line_length : ℕ
max_line_length = 255

-- `while (fgets(line, sizeof(line), fp) != NULL);` keeps the last line; `line` starts as zeros.
unfoldable pub get_last_line : Files → Bytes → Bytes → Option (Unit {0}) × Bytes
unfolding last_of lines c_str
get_last_line fs name output = elim (fs name) [
  | none ↦ (none, output)
  | some content ↦ (some tt, c_str (last_of (lines (max_line_length - 1) content) []))
]

-- The code and `p_out`; the argument is what `getcwd` gives, which fails for 4096 bytes or more.
unfoldable pub get_current_directory : Option Bytes → Bytes → ℕ × Bytes
get_current_directory none p_out = (1, p_out)
get_current_directory (some buffer) p_out = (0, buffer)

-- From what `access(path, F_OK)` returns.
unfoldable pub directory_exists : ℤ → Bool
directory_exists access = not (eq_ℤ access (negsuc 0))
