-- ===== src/FileHandle/Paths.antt =====
-- `check_empty_dir`, and the names that `create_new_file_name` builds.
use gemtek_sw_training.Prelude.{
  Bool-cases, Option-cases, length, get_or, All, length-append, get_or_middle, ℕ, ◌-◌, ◌≡◌, refl,
  ◌≢◌, ◌↔◌, ◌⊎◌, inl, inr, true, false, none, some, [], ◌∷◌, ◌++◌, append_assoc, arith, Bytes,
}
use gemtek_sw_training.CString.{after_last}
use gemtek_sw_training.CString.Search.{Lacks, after_last-Lacks, after_last_none, after_last-append}
use gemtek_sw_training.FileHandle.{
  check_empty_dir, is_path_mark, create_new_file_name, extension, is_valid_file_name, Files,
  check_file_exist,
}
use gemtek_sw_training.FileHandle.Names.{is_valid_file_name_iff}

-- a backslash, a slash or a period
abbrev pub IsPathMark : ℕ → Type 0
IsPathMark c = (c ≡ b'\\') ⊎ (c ≡ b'/') ⊎ (c ≡ b'.')

mark_sound : (c : ℕ) → is_path_mark c ≡ true → IsPathMark c
mark_sound c h = ground arith

mark_complete : (c : ℕ) → IsPathMark c → is_path_mark c ≡ true
mark_complete c h = ground arith

-- `check_empty_dir` returns false exactly on the names that hold nothing but backslashes, slashes and
-- periods, the empty name among them.
pub check_empty_dir_iff : (s : Bytes) → (check_empty_dir s ≡ false) ↔ All IsPathMark s
unfolding check_empty_dir
check_empty_dir_iff [] = (λ _. tt, λ _. refl)
check_empty_dir_iff (c ∷ s) = (
  λ h. (mark_sound c (ground arith), (check_empty_dir_iff s).0 (ground arith)),
  λ h. rw (mark_complete c h.0, (check_empty_dir_iff s).1 h.1),
)

-- `check_file_exist` returns 1 exactly for a name that `fopen` opens and that holds something beside
-- backslashes, slashes and periods, and 0 otherwise.
pub check_file_exist_iff :
    (fs : Files) (name : Bytes)
    → (check_file_exist fs (some name) ≡ 1) ↔ ((check_empty_dir name ≡ true) × (fs name ≢ none))
unfolding check_file_exist
check_file_exist_iff fs name = (
  λ h. (ground arith, λ e. ground arith),
  λ h. elim (Option-cases (fs name)) [ inl e ↦ absurd (h.1 e) | inr (t, e) ↦ rw (h.0, e) ],
)

extension-Lacks : (s : Bytes) → Lacks b'.' (extension (after_last b'.' s))
extension-Lacks s = elim (Option-cases (after_last b'.' s)) [
  | inl e ↦ rw e tt
  | inr (t, e) ↦ rw e (after_last-Lacks b'.' s e)
]

create_lem :
    (file name dir : Bytes)
    → create_new_file_name file name dir
      ≡ (dir ++ b'/' ∷ name) ++ b'.' ∷ extension (after_last b'.' file)
unfolding create_new_file_name
create_lem file name dir = simp append_assoc

-- The new name has the extension of the input: behind its last period stands what stands behind the
-- last period of `file_name`, and nothing if there is none.
pub extension-create_new_file_name :
    (file name dir : Bytes)
    → after_last b'.' (create_new_file_name file name dir) ≡ some (extension (after_last b'.' file))
extension-create_new_file_name file name dir =
    rw create_lem (after_last-append b'.' (dir ++ b'/' ∷ name) _ (extension-Lacks file))

ends_with_period : (limit : ℕ) (name : Bytes) → is_valid_file_name limit (name ++ b'.' ∷ []) ≡ false
ends_with_period limit name = elim (Bool-cases (is_valid_file_name limit (name ++ b'.' ∷ []))) [
  | inl e ↦ absurd (((is_valid_file_name_iff limit _).0 e).finishes.1 final)
  | inr e ↦ e
]
  where
    place : length (name ++ b'.' ∷ []) - 1 ≡ length name
    place = omega (arith, length-append name (b'.' ∷ []))

    final : get_or (name ++ b'.' ∷ []) (length (name ++ b'.' ∷ []) - 1) 0 ≡ b'.'
    final = rw place (get_or_middle name b'.' [] 0)

-- From an input with no period in its name the new name is the directory, a slash, the output name
-- and a period: its last part ends with a period, and `is_valid_file_name` refuses it.
pub create_no_extension :
    (file name dir : Bytes) (limit : ℕ)
    → Lacks b'.' file
    → (create_new_file_name file name dir ≡ dir ++ b'/' ∷ (name ++ b'.' ∷ []))
      × (is_valid_file_name limit (name ++ b'.' ∷ []) ≡ false)
create_no_extension file name dir limit h = (
  rw (create_lem, after_last_none b'.' file h) (append_assoc dir (b'/' ∷ name) (b'.' ∷ [])),
  ends_with_period limit name,
)
