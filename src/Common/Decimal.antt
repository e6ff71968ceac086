-- ===== src/Common/Decimal.antt =====
-- What `intToStr` prints for a number that is not negative: its decimal digits, padded on the left.
use gemtek_sw_training.Prelude.{
  ltb, ◌==◌, if◌then◌else◌, ltb→lt, ltb_false→le, ne→==_false, Bool-cases, length, replicate, All,
  length-append, length-replicate, length-reverse, All-append, All-replicate, All-reverse, ℕ, zero,
  suc, ◌+◌, ◌-◌, ◌*◌, ◌/◌, ◌%◌, ◌^◌, ◌≤◌, ◌<◌, ◌≡◌, refl, sym, ap, ◌∙◌, ◌⊎◌, inl, inr, ℤ, pos, [],
  ◌∷◌, ◌++◌, append_assoc, append-nil, reverse-cons, reverse, arith, Bytes,
}
use native.Mathlib.Nat.{pow-suc}
use gemtek_sw_training.Common.{int_to_str, emit, pad, reverse_str, is_zero, tenth, digit}
use gemtek_sw_training.Common.Reverse.{reverse_str_lem}

abbrev pub IsDigit : ℕ → Type 0
IsDigit c = (b'0' ≤ c) × (c ≤ b'9')

-- The number that decimal digits spell behind `n`.
abbrev pub value_from : ℕ → Bytes → ℕ
value_from n [] = n
value_from n (c ∷ s) = value_from (n * 10 + (c - b'0')) s

abbrev pub value : Bytes → ℕ
value s = value_from 0 s

-- The same, the last digit first.
abbrev value_le : Bytes → ℕ
value_le [] = 0
value_le (c ∷ s) = (c - b'0') + 10 * value_le s

value_from-append :
    (n : ℕ) (s : Bytes) (c : ℕ) → value_from n (s ++ c ∷ []) ≡ value_from n s * 10 + (c - b'0')
value_from-append n [] c = refl
value_from-append n (d ∷ s) c = value_from-append (n * 10 + (d - b'0')) s c

value-reverse : (s : Bytes) → value (reverse s) ≡ value_le s
value-reverse [] = refl
value-reverse (c ∷ s) =
    rw (reverse-cons, value_from-append 0 (reverse s) c) (omega (arith, value-reverse s))

value_le-append : (s t : Bytes) → value_le t ≡ 0 → value_le (s ++ t) ≡ value_le s
value_le-append [] t h = h
value_le-append (c ∷ s) t h = omega (arith, value_le-append s t h)

value_le-zeros : (n : ℕ) → value_le (replicate n b'0') ≡ 0
value_le-zeros zero = refl
value_le-zeros (suc n) = omega (arith, value_le-zeros n)

emit-append : (fuel : ℕ) (x : ℤ) (str : Bytes) → emit fuel x str ≡ str ++ emit fuel x []
unfolding emit
emit-append zero x str = sym (append-nil str)
emit-append (suc fuel) x str = elim (Bool-cases (is_zero x)) [
  | inl e ↦ rw (e, emit) (sym (append-nil str))
  | inr e ↦
      rw
        (
          e,
          emit,
          emit-append fuel (tenth x) (str ++ digit x ∷ []),
          emit-append fuel (tenth x) (digit x ∷ []),
        )
        (append_assoc str (digit x ∷ []) _)
]

abbrev digits : ℕ → ℕ → Bytes
digits fuel n = emit fuel (pos n) []

digits_zero : (fuel : ℕ) → digits fuel 0 ≡ []
unfolding emit
digits_zero zero = refl
digits_zero (suc fuel) = refl

digits-suc : (fuel n : ℕ) → 0 < n → digits (suc fuel) n ≡ (n % 10 + b'0') ∷ digits fuel (n / 10)
unfolding emit
digits-suc fuel n h =
    rw (ne→==_false n 0 (omega arith), emit)
      (emit-append fuel (pos (n / 10)) ((n % 10 + b'0') ∷ []))

value_le-digits : (fuel n : ℕ) → n ≤ fuel → value_le (digits fuel n) ≡ n
value_le-digits fuel zero h = rw (digits_zero fuel)
value_le-digits zero (suc n) h = absurd (omega arith)
value_le-digits (suc fuel) (suc n) h =
    rw (digits-suc fuel (suc n) (omega arith))
      (omega (arith, value_le-digits fuel (suc n / 10) (omega arith)))

digits-IsDigit : (fuel n : ℕ) → All IsDigit (digits fuel n)
digits-IsDigit fuel zero = rw (digits_zero fuel) tt
digits-IsDigit zero (suc n) = unfold emit in tt
digits-IsDigit (suc fuel) (suc n) =
    rw (digits-suc fuel (suc n) (omega arith))
      ((omega arith, omega arith), digits-IsDigit fuel (suc n / 10))

-- No digit is superfluous.
pow-le-digits : (fuel n k : ℕ) → n ≤ fuel → length (digits fuel n) ≡ suc k → 10 ^ k ≤ n
pow-le-digits fuel zero k h e = absurd (omega (arith, size))
  where
    size : 0 ≡ suc k
    size = rw (digits_zero fuel) at e
pow-le-digits zero (suc n) k h e = absurd (omega arith)
pow-le-digits (suc fuel) (suc n) zero h e = omega arith
pow-le-digits (suc fuel) (suc n) (suc k) h e =
    omega
      (arith, pow-suc 10 k, pow-le-digits fuel (suc n / 10) k (omega arith) (omega (arith, size)))
  where
    size : suc (length (digits fuel (suc n / 10))) ≡ suc (suc k)
    size = rw (digits-suc fuel (suc n) (omega arith)) at e

pad_lem :
    (fuel : ℕ) (str : Bytes) (d : ℕ)
    → d ≤ length str + fuel
    → pad fuel str d ≡ str ++ replicate (d - length str) b'0'
unfolding pad
pad_lem zero str d h = rw zeros (sym (append-nil str))
  where
    zeros : d - length str ≡ 0
    zeros = omega arith
pad_lem (suc fuel) str d h = elim (Bool-cases (ltb (length str) d)) [
  | inl e ↦
      let more : d - length str ≡ suc (d - length (str ++ b'0' ∷ [])) =
        omega (arith, ltb→lt _ _ e, length-append str (b'0' ∷ [])) in
      rw
        (
          e,
          pad,
          more,
          pad_lem fuel (str ++ b'0' ∷ []) d (omega (arith, length-append str (b'0' ∷ []))),
        )
        (append_assoc str (b'0' ∷ []) _)
  | inr e ↦
      let zeros : d - length str ≡ 0 = omega (arith, ltb_false→le _ _ e) in
      rw (e, pad, zeros) (sym (append-nil str))
]

-- the digits of `n`, the last one first, before the padding
body : ℕ → Bytes
body zero = b'0' ∷ []
body (suc n) = digits (suc n) (suc n)

padded : ℕ → ℕ → Bytes
padded n d = body n ++ replicate (d - length (body n)) b'0'

emit-body : (n : ℕ) → emit n (pos n) (if n == 0 then b'0' ∷ [] else []) ≡ body n
unfolding emit body
emit-body zero = refl
emit-body (suc n) = rw (ne→==_false (suc n) 0 (omega arith)) refl

reverse_str_all : (s : Bytes) → reverse_str s (length s) ≡ reverse s
reverse_str_all s =
    ap (λ t. reverse_str t (length s)) (sym (append-nil s))
    ∙ reverse_str_lem s []
    ∙ append-nil (reverse s)

int_to_str-padded : (n d : ℕ) → int_to_str (pos n) d ≡ (reverse (padded n d), length (padded n d))
unfolding int_to_str padded
int_to_str-padded n d =
    rw (emit-body n, pad_lem d (body n) d (omega arith), reverse_str_all (padded n d)) refl

-- `s` is the decimal print of `n` in `d` places, with zeros on the left: as short as it can be.
pub record IsDecimal (n d : ℕ) (s : Bytes) : Type 0 where
  pub all_digits : All IsDigit s
  pub spells : value s ≡ n
  pub nonempty : 0 < length s
  pub wide : d ≤ length s
  pub tight : d < length s → (s ≡ b'0' ∷ []) ⊎ (10 ^ (length s - 1) ≤ n)

body-IsDigit : (n : ℕ) → All IsDigit (body n)
unfolding body
body-IsDigit zero = omega arith
body-IsDigit (suc n) = digits-IsDigit (suc n) (suc n)

value_le-body : (n : ℕ) → value_le (body n) ≡ n
unfolding body
value_le-body zero = refl
value_le-body (suc n) = value_le-digits (suc n) (suc n) (omega arith)

body_nonempty : (n : ℕ) → 0 < length (body n)
unfolding body
body_nonempty zero = omega arith
body_nonempty (suc n) = rw (digits-suc n (suc n) (omega arith)) (omega arith)

length-padded : (n d : ℕ) → length (padded n d) ≡ length (body n) + (d - length (body n))
unfolding padded
length-padded n d =
    length-append (body n) _
    ∙ ap (◌+◌ (length (body n))) (length-replicate (d - length (body n)) b'0')

padded_tight :
    (n d : ℕ)
    → d < length (padded n d)
    → (reverse (padded n d) ≡ b'0' ∷ []) ⊎ (10 ^ (length (padded n d) - 1) ≤ n)
unfolding padded body
padded_tight zero d h = inl (let e : d ≡ 0 = omega (arith, length-padded 0 d) in rw e refl)
padded_tight (suc n) d h = inr (
    pow-le-digits (suc n) (suc n) (length (padded (suc n) d) - 1) (omega arith)
      (omega (arith, length-padded (suc n) d, body_nonempty (suc n))))

-- For a number that is not negative, `intToStr` leaves in `str` the decimal digits of `x`, padded
-- with zeros on the left to at least `d` places and with no other leading zero, and returns their
-- number.
pub int_to_str-IsDecimal :
    (n d : ℕ)
    → IsDecimal n d (int_to_str (pos n) d).0
      × ((int_to_str (pos n) d).1 ≡ length (int_to_str (pos n) d).0)
int_to_str-IsDecimal n d = rw (int_to_str-padded n d) (
  record {
    all_digits = All-reverse IsDigit (padded n d) padded-IsDigit;
    spells = value-reverse (padded n d) ∙ value_le-padded;
    nonempty = omega (arith, size, length-padded n d, body_nonempty n);
    wide = omega (arith, size, length-padded n d);
    tight = λ h. rw size (padded_tight n d (rw size at h));
  },
  sym size,
)
  where
    size : length (reverse (padded n d)) ≡ length (padded n d)
    size = length-reverse (padded n d)

    padded-IsDigit : All IsDigit (padded n d)
    padded-IsDigit =
        unfold padded in
        All-append IsDigit (body n) _ (body-IsDigit n)
          (All-replicate IsDigit (d - length (body n)) b'0' (omega arith))

    value_le-padded : value_le (padded n d) ≡ n
    value_le-padded =
        unfold padded in
        value_le-append (body n) _ (value_le-zeros (d - length (body n))) ∙ value_le-body n
