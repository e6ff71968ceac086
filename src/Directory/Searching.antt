-- ===== src/Directory/Searching.antt =====
-- What the search in a tree of directories finds.
use gemtek_sw_training.Prelude.{
  if◌then◌else◌, Bool-cases, ◌≡◌, refl, sym, ap, ◌↔◌, inl, inr, Bool, true, false, some, ◌∷◌, ◌++◌,
  arith, Bytes,
}
use gemtek_sw_training.CString.{str_eq}
use mathlib.Core.Path.{subst}
use gemtek_sw_training.CString.Search.{str_eq_refl, str_eq_iff}
use gemtek_sw_training.Directory.{
  Status, file_exist_in_dir, Entries, no_more, file, folder, is_dot, search_entries,
  search_file_in_directory,
}

-- The directory itself lists the file.
pub data IsListed (file_name : Bytes) : Entries → Type 0 where
  here : (rest : Entries) → IsListed file_name (file file_name rest)
  later :
      (name : Bytes) (rest : Entries)
      → IsListed file_name rest
      → IsListed file_name (file name rest)
  beside :
      (name : Bytes) (opens : Bool) (inner rest : Entries)
      → IsListed file_name rest
      → IsListed file_name (folder name opens inner rest)

IsListed-search :
    (dir file_name : Bytes) (es : Entries) (ret_dir : Bytes)
    → IsListed file_name es
    → search_entries dir file_name es ret_dir ≡ (file_exist_in_dir, dir ++ b'/' ∷ file_name)
unfolding search_entries
IsListed-search dir file_name _ ret_dir (here rest) = rw (str_eq_refl file_name) refl
IsListed-search dir file_name _ ret_dir (later name rest h) =
    elim (Bool-cases (str_eq name file_name)) [
      | inl e ↦ rw e refl
      | inr e ↦ rw e (IsListed-search dir file_name rest ret_dir h)
    ]
IsListed-search dir file_name _ ret_dir (beside name opens inner rest h) =
    over (is_dot name) opens (IsListed-search dir file_name rest ret_dir h)
      (IsListed-search dir file_name rest (search_entries name file_name inner ret_dir).1 h)
  where
    over :
        (b c : Bool) {x y : Status × Bytes}
        → x ≡ (file_exist_in_dir, dir ++ b'/' ∷ file_name)
        → y ≡ (file_exist_in_dir, dir ++ b'/' ∷ file_name)
        → (if b then x else if c then y else x) ≡ (file_exist_in_dir, dir ++ b'/' ∷ file_name)
    over true c p q = p
    over false true p q = q
    over false false p q = p

search-IsListed :
    (dir file_name : Bytes) (es : Entries) (ret_dir : Bytes)
    → (search_entries dir file_name es ret_dir).0 ≡ file_exist_in_dir
    → IsListed file_name es
unfolding search_entries
search-IsListed dir file_name no_more ret_dir e = absurd cc
search-IsListed dir file_name (file name rest) ret_dir e =
    elim (Bool-cases (str_eq name file_name)) [
      | inl f ↦
          subst (λ (n : Bytes). IsListed file_name (file n rest))
            (sym ((str_eq_iff name file_name).0 f)) (here rest)
      | inr f ↦ later name rest (search-IsListed dir file_name rest ret_dir (grind arith))
    ]
search-IsListed dir file_name (folder name opens inner rest) ret_dir e =
    beside name opens inner rest (
      over (is_dot name) opens _
        (search_entries dir file_name rest (search_entries name file_name inner ret_dir).1) e
        (λ p. search-IsListed dir file_name rest ret_dir p)
        (λ p. search-IsListed dir file_name rest (search_entries name file_name inner ret_dir).1 p))
  where
    over :
        (b c : Bool) (x y : Status × Bytes)
        → (if b then x else if c then y else x).0 ≡ file_exist_in_dir
        → (x.0 ≡ file_exist_in_dir → IsListed file_name rest)
        → (y.0 ≡ file_exist_in_dir → IsListed file_name rest)
        → IsListed file_name rest
    over true c x y e p q = p e
    over false true x y e p q = q e
    over false false x y e p q = p e

-- `search_file_in_directory` returns FILE_EXIST_IN_DIR exactly if the directory itself lists the file,
-- whatever the directories below it hold, and then `ret_dir` is the path of the file.
pub search_file_in_directory_iff :
    (dir file_name : Bytes) (es : Entries) (ret_dir : Bytes)
    → ((search_file_in_directory dir file_name (some es) ret_dir).0 ≡ file_exist_in_dir) ↔ (
        IsListed file_name es
        × (search_file_in_directory dir file_name (some es) ret_dir
            ≡ (file_exist_in_dir, dir ++ b'/' ∷ file_name)))
unfolding search_file_in_directory
search_file_in_directory_iff dir file_name es ret_dir = (
  λ e.
      (let h = search-IsListed dir file_name es ret_dir e in
        (h, IsListed-search dir file_name es ret_dir h)),
  λ h. ap (λ (r : Status × Bytes). r.0) h.1,
)
