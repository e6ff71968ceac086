-- ===== src/Tests/Files.antt =====
-- The theorems on strings and files at concrete inputs.
use gemtek_sw_training.Prelude.{
  length, ℕ, ◌≡◌, refl, sym, ◌≢◌, true, pos, none, some, [], ◌∷◌, ◌++◌, arith, Bytes, codes,
}
use gemtek_sw_training.CString.Search.{Lacks}
use gemtek_sw_training.CString.Lines.{start}
use gemtek_sw_training.Common.{int_to_str}
use gemtek_sw_training.Common.Decimal.{IsDecimal, int_to_str-IsDecimal}
use gemtek_sw_training.FileHandle.{
  Files, file_handle_read, file_handle_write, is_valid_file_name, get_last_line,
}
use gemtek_sw_training.FileHandle.LastLine.{get_last_line-file_handle_write}
use gemtek_sw_training.FileHandle.Read.{restore, restore-file_handle_read}

abbrev no_files : Files
no_files name = none

abbrev one_file : Files
one_file name = some (codes "a b\nc\n")

abbrev a_line : Bytes
a_line = codes "x: 1"

get_last_line-file_handle_write_example :
    get_last_line (file_handle_write no_files (codes "o") (a_line ++ b'\n' ∷ [])) (codes "o") []
    ≡ (some tt, a_line ++ b'\n' ∷ [])
get_last_line-file_handle_write_example =
    get_last_line-file_handle_write no_files (codes "o") [] a_line start lacks lacks_nul
      (omega arith)
  where
    lacks : Lacks b'\n' a_line
    lacks = (ground arith, (ground arith, (ground arith, (ground arith, tt))))

    lacks_nul : Lacks 0 a_line
    lacks_nul = (ground arith, (ground arith, (ground arith, (ground arith, tt))))

int_to_str-IsDecimal_example :
    IsDecimal 407 5 (int_to_str (pos 407) 5).0
    × ((int_to_str (pos 407) 5).1 ≡ length (int_to_str (pos 407) 5).0)
int_to_str-IsDecimal_example = int_to_str-IsDecimal 407 5

valid : is_valid_file_name 255 (codes "a.txt") ≡ true
unfolding is_valid_file_name
valid = refl

abbrev text : Bytes
text = codes "a\nc"

abbrev text_file : Files
text_file name = some text

text-Lacks : (c : ℕ) → c ≢ 97 → c ≢ 10 → c ≢ 99 → Lacks c text
text-Lacks c h k l = (λ e. h (sym e), ((λ e. k (sym e)), ((λ e. l (sym e)), tt)))

restore-file_handle_read_example : restore (file_handle_read text_file [] []).1 ≡ text
restore-file_handle_read_example =
    restore-file_handle_read text_file [] [] text refl
      (text-Lacks 0xff (omega arith) (omega arith) (omega arith))
      (text-Lacks b'|' (omega arith) (omega arith) (omega arith))

abbrev cut_file : Files
cut_file name = some (text ++ 0xff ∷ text)
