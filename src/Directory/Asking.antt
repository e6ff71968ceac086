-- ===== src/Directory/Asking.antt =====
-- The loop that asks for a file name.
use gemtek_sw_training.Prelude.{
  ◌==◌, Bool-cases, ◌≡◌, refl, inl, inr, Bool, true, false, Option, some, List, [], ◌∷◌, ◌++◌,
  arith, Bytes, codes,
}
use gemtek_sw_training.CString.{str_eq}
use gemtek_sw_training.FileHandle.{Files, check_file_exist}
use gemtek_sw_training.Directory.{
  check_file_exist_written, get_input_from_user, ask_again, get_file_name,
}

exists_of_nonzero :
    (fs : Files) (name : Bytes)
    → (check_file_exist_written fs (some name) == 0) ≡ false
    → check_file_exist_written fs (some name) ≡ 1
unfolding check_file_exist_written check_file_exist
exists_of_nonzero fs name e = ground arith

-- What is left in `file_name`: the name of a file that is there, or the name from before.
abbrev pub IsAnswer : Files → Bytes → Bool × Bytes → Type 0
IsAnswer fs old (true, name) = check_file_exist_written fs (some name) ≡ 1
IsAnswer fs old (false, name) = name ≡ old

abbrev Ends : Files → Bytes → Option (Bool × Bytes) → Type 0
Ends fs old o = (r : Bool × Bytes) × (o ≡ some r) × IsAnswer fs old r

ask_again-Ends :
    (fs : Files) (ts : List Bytes) (line : Bytes) (more : List Bytes) (old name : Bytes)
    → get_input_from_user line ≡ codes "e"
    → Ends fs old (ask_again fs (ts ++ line ∷ more) old name)
unfolding ask_again
ask_again-Ends fs [] line more old name h =
    elim (Bool-cases (check_file_exist_written fs (some name) == 0)) [
      | inl e ↦ ((false, old), rw (e, h) refl, refl)
      | inr e ↦ ((true, name), rw e refl, exists_of_nonzero fs name e)
    ]
ask_again-Ends fs (t ∷ ts) line more old name h =
    let ih = ask_again-Ends fs ts line more old (get_input_from_user t) h in
    elim (Bool-cases (check_file_exist_written fs (some name) == 0)) [
      | inl e ↦ elim (Bool-cases (str_eq (get_input_from_user t) (codes "e"))) [
        | inl f ↦ ((false, old), rw (e, f) refl, refl)
        | inr f ↦ rw (e, f) ih
      ]
      | inr e ↦ ((true, name), rw e refl, exists_of_nonzero fs name e)
    ]

-- If a line that gives `e` is typed at some time, `get_file_name` returns, and it leaves in
-- `file_name` the name of a file that is there, when it returns true, or the name that was in it
-- before, when it returns false.
pub get_file_name_ends :
    (fs : Files) (ts : List Bytes) (line : Bytes) (more : List Bytes) (old : Bytes)
    → get_input_from_user line ≡ codes "e"
    → (r : Bool × Bytes) × (get_file_name fs (ts ++ line ∷ more) old ≡ some r) × IsAnswer fs old r
unfolding get_file_name
get_file_name_ends fs [] line more old h = ((false, old), rw h refl, refl)
get_file_name_ends fs (t ∷ ts) line more old h =
    elim (Bool-cases (str_eq (get_input_from_user t) (codes "e"))) [
      | inl f ↦ ((false, old), rw f refl, refl)
      | inr f ↦ rw f (ask_again-Ends fs ts line more old (get_input_from_user t) h)
    ]
