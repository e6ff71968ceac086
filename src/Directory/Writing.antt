-- ===== src/Directory/Writing.antt =====
-- 02-Linux-File-System/02-Write-To-File/main.c: the program that writes a typed text to a file.
use gemtek_sw_training.Prelude.{
  if◌then◌else◌, ℕ, ◌≡◌, Bool, true, false, Option, none, some, List, [], Bytes,
}
use gemtek_sw_training.CString.{str_eq}
use gemtek_sw_training.FileHandle.{Files}
use gemtek_sw_training.Directory.{get_input_from_user, get_file_name, write_to_file}

-- What `main` makes of the result of `get_file_name`; `typed` is the line that is typed as the text.
abbrev write_answer : Files → Bytes → Bool × Bytes → ℕ × Files
write_answer fs typed (false, filename) = (1, fs)
write_answer fs typed (true, filename) = (0, write_to_file fs filename (get_input_from_user typed))

abbrev write_result : Files → Bytes → Option (Bool × Bytes) → Option (ℕ × Files)
write_result fs typed none = none
write_result fs typed (some r) = some (write_answer fs typed r)

-- `main`, with the lines that are typed as names: the code that the process ends with, and the files.
unfoldable pub write_main : Files → List Bytes → Bytes → Option (ℕ × Files)
unfolding get_file_name write_to_file
write_main fs names typed = write_result fs typed (get_file_name fs names [])

-- Either nothing is written, with the code of failure, or a file that was there has the typed text and
-- no other file has changed.
pub data IsWritten (fs : Files) (typed : Bytes) (r : ℕ × Files) : Type 0 where
  given_up : r.0 ≡ 1 → r.1 ≡ fs → IsWritten fs typed r
  rewritten :
      (name content : Bytes)
      → fs name ≡ some content
      → r.0 ≡ 0
      → ((other : Bytes)
          → r.1 other ≡ (if str_eq other name then some (get_input_from_user typed) else fs other))
      → IsWritten fs typed r
