-- ===== src/FileHandle/Names.antt =====
-- Which names `is_valid_file_name` accepts.
use gemtek_sw_training.Prelude.{
  ltb, ◌==◌, if◌then◌else◌, length, get_or, All, All-map, ℕ, ◌-◌, ◌≤◌, ◌<◌, ◌≡◌, refl, ◌≢◌, ◌↔◌,
  Bool, true, false, ◌||◌, [], ◌∷◌, arith, Bytes,
}
use gemtek_sw_training.CString.Search.{Lacks, has_char-false}
use gemtek_sw_training.FileHandle.{
  is_valid_file_name, any_char, invalid_chars, is_space_or_period, check_empty_dir, is_path_mark,
}

-- none of \ / : * ? " < > |
abbrev pub IsAllowed : ℕ → Type 0
IsAllowed x = All (λ c. x ≢ c) invalid_chars

-- neither a space nor a period
abbrev pub IsEdge : ℕ → Type 0
IsEdge c = (c ≢ b' ') × (c ≢ b'.')

pub record IsValidName (limit : ℕ) (name : Bytes) : Type 0 where
  pub nonempty : 0 < length name
  pub fits : length name ≤ limit
  pub allowed : All IsAllowed name
  pub starts : IsEdge (get_or name 0 0)
  pub finishes : IsEdge (get_or name (length name - 1) 0)

any_char_sound : (cs name : Bytes) → any_char cs name ≡ false → All (λ x. All (λ c. x ≢ c) cs) name
unfolding any_char
any_char_sound [] [] h = tt
any_char_sound [] (x ∷ name) h = (tt, any_char_sound [] name h)
any_char_sound (c ∷ cs) name h =
    both name ((has_char-false c name).0 (ground arith)) (any_char_sound cs name (ground arith))
  where
    both :
        (s : Bytes)
        → Lacks c s
        → All (λ x. All (λ c. x ≢ c) cs) s
        → All (λ x. All (λ c. x ≢ c) (c ∷ cs)) s
    both [] p q = tt
    both (x ∷ s) (px, p) (qx, q) = ((px, qx), both s p q)

any_char_complete :
    (cs name : Bytes) → All (λ x. All (λ c. x ≢ c) cs) name → any_char cs name ≡ false
unfolding any_char
any_char_complete [] name h = refl
any_char_complete (c ∷ cs) name h =
    rw
      (
        (has_char-false c name).1 (All-map name (λ x p. p.0) h),
        any_char_complete cs name (All-map name (λ x p. p.1) h),
      )
      refl

IsEdge-sound : (c : ℕ) → is_space_or_period c ≡ false → IsEdge c
IsEdge-sound c h = (ground arith, ground arith)

IsEdge-complete : (c : ℕ) → IsEdge c → is_space_or_period c ≡ false
IsEdge-complete c h = ground arith

all_clear :
    (a b c : Bool)
    → (if a then false else if b then false else if c then false else true) ≡ true
    → (a ≡ false) × (b ≡ false) × (c ≡ false)
all_clear true b c h = absurd (cc)
all_clear false true c h = absurd (cc)
all_clear false false true h = absurd (cc)
all_clear false false false h = (refl, refl, refl)

all_clear_conv :
    {a b c : Bool}
    → a ≡ false
    → b ≡ false
    → c ≡ false
    → (if a then false else if b then false else if c then false else true) ≡ true
all_clear_conv p q r = rw (p, q, r)

size_sound : (n limit : ℕ) → ((n == 0) || ltb limit n) ≡ false → (0 < n) × (n ≤ limit)
size_sound n limit h = (ground arith, ground arith)

size_complete : (n limit : ℕ) → 0 < n → n ≤ limit → ((n == 0) || ltb limit n) ≡ false
size_complete n limit h k = ground arith

or_sound : (a b : Bool) → (a || b) ≡ false → (a ≡ false) × (b ≡ false)
or_sound true b h = absurd (cc)
or_sound false b h = (refl, h)

or_complete : {a b : Bool} → a ≡ false → b ≡ false → (a || b) ≡ false
or_complete p q = rw (p, q)

accepted :
    (limit : ℕ) (name : Bytes) → is_valid_file_name limit name ≡ true → IsValidName limit name
unfolding is_valid_file_name
accepted limit name h =
    let (size, chars, ends) = all_clear _ _ _ h in
    let (first, final) = or_sound _ _ ends in
    let (some_byte, short) = size_sound (length name) limit size in
    record {
      nonempty = some_byte;
      fits = short;
      allowed = any_char_sound invalid_chars name chars;
      starts = IsEdge-sound _ first;
      finishes = IsEdge-sound _ final;
    }

-- `is_valid_file_name` accepts exactly the names that are not empty, have at most `limit` bytes,
-- hold none of the characters \ / : * ? " < > |, and neither start nor end with a space or a period.
pub is_valid_file_name_iff :
    (limit : ℕ) (name : Bytes) → (is_valid_file_name limit name ≡ true) ↔ IsValidName limit name
unfolding is_valid_file_name
is_valid_file_name_iff limit name = (
  accepted limit name,
  λ v.
      all_clear_conv (size_complete _ limit v.nonempty v.fits)
        (any_char_complete invalid_chars name v.allowed)
        (or_complete (IsEdge-complete _ v.starts) (IsEdge-complete _ v.finishes)),
)

no_mark : (c : ℕ) → IsAllowed c → IsEdge c → is_path_mark c ≡ false
no_mark c a e = ground arith

-- Every name that `is_valid_file_name` accepts passes `check_empty_dir` too, so the first of the two
-- tests of `get_filepath_from_user` refuses nothing that the second accepts.
pub check_empty_dir-is_valid_file_name :
    (limit : ℕ) (name : Bytes) → is_valid_file_name limit name ≡ true → check_empty_dir name ≡ true
unfolding check_empty_dir
check_empty_dir-is_valid_file_name limit [] h = absurd (omega (arith, nonempty))
  where
    open (accepted limit [] h) use {nonempty}
check_empty_dir-is_valid_file_name limit (c ∷ s) h = rw (no_mark c allowed.0 starts)
  where
    open (accepted limit (c ∷ s) h) use {allowed, starts}
