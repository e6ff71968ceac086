-- ===== src/FileHandle/LastLine.antt =====
-- `file_handle_get_last_line` after `file_handle_write`.
use gemtek_sw_training.Prelude.{
  Option-cases, length, All-append, suc, ◌<◌, ◌≡◌, refl, inl, inr, Option, none, some, [], ◌∷◌,
  ◌++◌, arith, Bytes,
}
use gemtek_sw_training.CString.Search.{Lacks, c_str-Lacks, str_eq_refl}
use gemtek_sw_training.CString.Lines.{EndsLine, last_of-lines}
use gemtek_sw_training.FileHandle.{get_last_line, file_handle_write, Files, max_line_length}

-- what a file holds; an absent file holds nothing
abbrev pub contents : Option Bytes → Bytes
contents none = []
contents (some t) = t

pub write-contents :
    (fs : Files) (name text : Bytes)
    → file_handle_write fs name text name ≡ some (contents (fs name) ++ text)
unfolding file_handle_write
write-contents fs name text = elim (Option-cases (fs name)) [
  | inl e ↦ rw (str_eq_refl name, e) refl
  | inr (t, e) ↦ rw (str_eq_refl name, e) refl
]

-- When `file_handle_write` appends a line to a file that is absent or consists of complete lines, and
-- the line has no NUL, no newline but the one that ends it, and at most 254 bytes with it,
-- `file_handle_get_last_line` succeeds and returns that line.
pub get_last_line-file_handle_write :
    (fs : Files) (name output l : Bytes)
    → EndsLine (contents (fs name))
    → Lacks b'\n' l
    → Lacks 0 l
    → suc (length l) < max_line_length
    → get_last_line (file_handle_write fs name (l ++ b'\n' ∷ [])) name output
      ≡ (some tt, l ++ b'\n' ∷ [])
unfolding get_last_line
get_last_line-file_handle_write fs name output l e h z k =
    rw
      (
        write-contents fs name (l ++ b'\n' ∷ []),
        get_last_line,
        last_of-lines 253 l [] e h (omega arith),
        c_str-Lacks (l ++ b'\n' ∷ []) (All-append _ l (b'\n' ∷ []) z (omega arith)),
      )
      refl
