-- ===== src/Threads/FileHandle.antt =====
-- src/file_handle.c of 01-Multi-Threading-Mutex-Semaphore: an older copy of the file of the same name in
-- 02-Multi-Processes-Signal, function by function the same code.
use gemtek_sw_training.Prelude.{ℕ, Bool, ℤ, Option, Bytes}
use gemtek_sw_training.FileHandle.{Files}
use gemtek_sw_training.FileHandle as FileHandle

abbrev pub file_handle_read : Files → Bytes → Bytes → ℕ × Bytes
file_handle_read fs dir text = FileHandle.file_handle_read fs dir text

abbrev pub file_handle_write : Files → Bytes → Bytes → Files
file_handle_write fs dir text = FileHandle.file_handle_write fs dir text

abbrev pub check_empty_dir : Bytes → Bool
check_empty_dir file_name = FileHandle.check_empty_dir file_name

abbrev pub check_file_exist : Files → Option Bytes → ℕ
check_file_exist fs file_name = FileHandle.check_file_exist fs file_name

abbrev pub get_current_directory : Option Bytes → Bytes → ℕ × Bytes
get_current_directory getcwd p_out = FileHandle.get_current_directory getcwd p_out

abbrev pub directory_exists : ℤ → Bool
directory_exists access = FileHandle.directory_exists access

abbrev pub is_valid_file_name : ℕ → Bytes → Bool
is_valid_file_name limit file_name = FileHandle.is_valid_file_name limit file_name

abbrev pub create_new_file_name : Bytes → Bytes → Bytes → Bytes
create_new_file_name file_name output_name output_dir =
    FileHandle.create_new_file_name file_name output_name output_dir

abbrev pub get_file_size : Files → Bytes → Option ℕ
get_file_size fs file_name = FileHandle.get_file_size fs file_name
