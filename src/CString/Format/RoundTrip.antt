-- ===== src/CString/Format/RoundTrip.antt =====
-- `%d` reads what `%d` prints.
use gemtek_sw_training.Prelude.{
  ltb, leb, ◌==◌, ltb→lt, lt→ltb, ltb_false→le, ne→==_false, Bool-cases, length, All, All-map, ℕ,
  zero, suc, ◌+◌, ◌-◌, ◌*◌, ◌/◌, ◌%◌, ◌^◌, ◌≤◌, ◌<◌, ◌≡◌, refl, ap, ◌∙◌, inl, inr, true, false,
  ◌&&◌, ◌||◌, pos, some, [], ◌∷◌, ◌++◌, arith, Bytes,
}
use native.Mathlib.Nat.{pow-suc}
use gemtek_sw_training.CString.Search.{Lacks}
use gemtek_sw_training.CString.Format.{
  decimal, decimal_loop, scan_digits, scan_int, is_digit, print_int,
}

abbrev IsDigit : ℕ → Type 0
IsDigit c = (b'0' ≤ c) × (c ≤ b'9')

is_digit-true : (c : ℕ) → IsDigit c → is_digit c ≡ true
is_digit-true c h = ground arith

-- the text does not start with a digit
abbrev pub Stops : Bytes → Type 0
Stops [] = Unit
Stops (c ∷ s) = is_digit c ≡ false

scan_digit :
    (m d : ℕ) (text : Bytes)
    → d < 10
    → scan_digits m ((d + b'0') ∷ text) ≡ scan_digits (m * 10 + d) text
unfolding scan_digits
scan_digit m d text h = rw (is_digit-true (d + b'0') (omega arith), value) refl
  where
    value : d + b'0' - b'0' ≡ d
    value = omega arith

scan-decimal_loop :
    (fuel n : ℕ) (text : Bytes)
    → n < fuel
    → scan_digits 0 (decimal_loop fuel n text) ≡ scan_digits n text
unfolding decimal_loop
scan-decimal_loop zero n text h = absurd (omega arith)
scan-decimal_loop (suc fuel) n text h = elim (Bool-cases (ltb n 10)) [
  | inl e ↦
      rw (e, decimal_loop)
        (scan_digit 0 n text (ltb→lt n 10 e) ∙ ap (λ m. scan_digits m text) (omega arith))
  | inr e ↦
      rw
        (
          e,
          decimal_loop,
          scan-decimal_loop fuel (n / 10) ((n % 10 + b'0') ∷ text)
              (omega (arith, ltb_false→le n 10 e)),
        )
        (scan_digit (n / 10) (n % 10) text (omega arith)
          ∙ ap (λ m. scan_digits m text) (omega arith))
]

decimal_loop-append :
    (fuel n : ℕ) (text rest : Bytes)
    → decimal_loop fuel n text ++ rest ≡ decimal_loop fuel n (text ++ rest)
unfolding decimal_loop
decimal_loop-append zero n text rest = refl
decimal_loop-append (suc fuel) n text rest = elim (Bool-cases (ltb n 10)) [
  | inl e ↦ rw (e, decimal_loop) refl
  | inr e ↦ rw (e, decimal_loop) (decimal_loop-append fuel (n / 10) ((n % 10 + b'0') ∷ text) rest)
]

-- the print starts with a digit
record Leads (s : Bytes) : Type 0 where
  front : ℕ
  behind : Bytes
  shape : s ≡ front ∷ behind
  digit : IsDigit front

decimal_loop-Leads : (fuel n : ℕ) (text : Bytes) → n < fuel → Leads (decimal_loop fuel n text)
unfolding decimal_loop
decimal_loop-Leads zero n text h = absurd (omega arith)
decimal_loop-Leads (suc fuel) n text h = elim (Bool-cases (ltb n 10)) [
  | inl e ↦
      rw (e, decimal_loop)
        (record {
          front = n + b'0';
          behind = text;
          shape = refl;
          digit = (omega arith, omega (arith, ltb→lt n 10 e));
        })
  | inr e ↦
      rw (e, decimal_loop)
        (decimal_loop-Leads fuel (n / 10) ((n % 10 + b'0') ∷ text)
          (omega (arith, ltb_false→le n 10 e)))
]

scan_digits_stop : (n : ℕ) (rest : Bytes) → Stops rest → scan_digits n rest ≡ (n, rest)
unfolding scan_digits
scan_digits_stop n [] h = refl
scan_digits_stop n (c ∷ s) h = rw h refl

scan_int_digit :
    (c : ℕ) (s : Bytes)
    → IsDigit c
    → scan_int (c ∷ s) ≡ some (pos (scan_digits 0 (c ∷ s)).0, (scan_digits 0 (c ∷ s)).1)
unfolding scan_int
scan_int_digit c s h =
    rw
      (
        not_space,
        ne→==_false c b'-' (omega arith),
        ne→==_false c b'+' (omega arith),
        is_digit-true c h,
      )
      refl
  where
    not_space : ((c == b' ') || (leb 9 c && leb c 13)) ≡ false
    not_space = ground arith

scan_int-Leads :
    (s : Bytes) → Leads s → scan_int s ≡ some (pos (scan_digits 0 s).0, (scan_digits 0 s).1)
scan_int-Leads s f = rw (f.shape) (scan_int_digit f.front f.behind f.digit)

-- Reading with `%d` what `%d` printed of a number that is not negative gives the number back, and
-- leaves the rest of the text.
pub scan_int-decimal :
    (n : ℕ) (rest : Bytes) → Stops rest → scan_int (decimal n ++ rest) ≡ some (pos n, rest)
unfolding decimal
scan_int-decimal n rest h =
    rw
      (
        decimal_loop-append (suc n) n [] rest,
        scan_int-Leads _ (decimal_loop-Leads (suc n) n rest (omega arith)),
        scan-decimal_loop (suc n) n rest (omega arith),
        scan_digits_stop n rest h,
      )
      refl

length-decimal_loop :
    (fuel n k : ℕ) (text : Bytes)
    → n < 10 ^ suc k
    → length (decimal_loop fuel n text) ≤ suc k + length text
unfolding decimal_loop
length-decimal_loop zero n k text h = omega arith
length-decimal_loop (suc fuel) n zero text h =
    rw (lt→ltb n 10 (omega (arith, pow-suc 10 0)), decimal_loop) (omega arith)
length-decimal_loop (suc fuel) n (suc k) text h = elim (Bool-cases (ltb n 10)) [
  | inl e ↦ rw (e, decimal_loop) (omega arith)
  | inr e ↦
      rw (e, decimal_loop)
        (omega (
          arith,
          length-decimal_loop fuel (n / 10) k ((n % 10 + b'0') ∷ text)
              (omega (arith, pow-suc 10 (suc k))),
        ))
]

-- A number below a power of ten has as many digits as its exponent at most.
pub length-decimal_le : (n k : ℕ) → n < 10 ^ suc k → length (decimal n) ≤ suc k
unfolding decimal
length-decimal_le n k h = omega (arith, length-decimal_loop (suc n) n k [] h)

decimal_loop-IsDigit :
    (fuel n : ℕ) (text : Bytes) → All IsDigit text → All IsDigit (decimal_loop fuel n text)
unfolding decimal_loop
decimal_loop-IsDigit zero n text h = h
decimal_loop-IsDigit (suc fuel) n text h = elim (Bool-cases (ltb n 10)) [
  | inl e ↦ rw (e, decimal_loop) ((omega arith, omega (arith, ltb→lt n 10 e)), h)
  | inr e ↦
      rw (e, decimal_loop)
        (decimal_loop-IsDigit fuel (n / 10) ((n % 10 + b'0') ∷ text)
          ((omega arith, omega arith), h))
]

pub decimal-Lacks : (n c : ℕ) → c < b'0' → Lacks c (decimal n)
unfolding decimal
decimal-Lacks n c h =
    All-map (decimal_loop (suc n) n []) (λ x p e. absurd (omega arith))
      (decimal_loop-IsDigit (suc n) n [] tt)

pub scan_int_space : (s : Bytes) → scan_int (b' ' ∷ s) ≡ scan_int s
unfolding scan_int
scan_int_space s = refl

pub print_int-pos : (n : ℕ) → print_int (pos n) ≡ decimal n
unfolding print_int
print_int-pos n = refl
