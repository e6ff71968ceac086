-- ===== src/CString/Format.antt =====
-- `printf` and `scanf` of decimal integers.
pub mod RoundTrip
use mathlib.Core.Option
use gemtek_sw_training.Prelude.{
  ltb, leb, ◌==◌, if◌then◌else◌, ℕ, zero, suc, ◌+◌, ◌-◌, ◌*◌, ◌/◌, ◌%◌, Bool, true, false, ◌&&◌,
  ◌||◌, ℤ, pos, negsuc, neg, Option, none, some, [], ◌∷◌, Bytes,
}

decimal_loop : ℕ → ℕ → Bytes → Bytes
decimal_loop zero n text = text
decimal_loop (suc fuel) n text = elim (ltb n 10) [
  | true ↦ (n + b'0') ∷ text
  | false ↦ decimal_loop fuel (n / 10) ((n % 10 + b'0') ∷ text)
]

-- `%d` of a number that is not negative. Each round divides it by ten.
unfoldable pub decimal : ℕ → Bytes
unfolding decimal_loop
decimal n = decimal_loop (suc n) n []

-- `%d`
unfoldable pub print_int : ℤ → Bytes
unfolding decimal
print_int (pos n) = decimal n
print_int (negsuc n) = b'-' ∷ decimal (n + 1)

abbrev is_digit : ℕ → Bool
is_digit c = leb b'0' c && leb c b'9'

-- `isspace`
abbrev pub is_space : ℕ → Bool
is_space c = (c == b' ') || (leb 9 c && leb c 13)

unfoldable pub skip_space : Bytes → Bytes
skip_space [] = []
skip_space (c ∷ s) = let rest = skip_space s in if is_space c then rest else c ∷ s

-- the number that the digits at the front spell behind `n`, and what is left
scan_digits : ℕ → Bytes → ℕ × Bytes
scan_digits n [] = (n, [])
scan_digits n (c ∷ s) =
    let more = scan_digits (n * 10 + (c - b'0')) s in if is_digit c then more else (n, c ∷ s)

-- at least one digit
scan_unsigned : Bytes → Option (ℕ × Bytes)
unfolding scan_digits
scan_unsigned [] = none
scan_unsigned (c ∷ s) = if is_digit c then some (scan_digits 0 (c ∷ s)) else none

scan_signed : Bytes → Option (ℤ × Bytes)
unfolding scan_unsigned
scan_signed [] = none
scan_signed (c ∷ s) =
    if c == b'-'
    then Option.map (λ r. (neg r.0, r.1)) (scan_unsigned s)
    else if c == b'+'
    then Option.map (λ r. (pos r.0, r.1)) (scan_unsigned s)
    else Option.map (λ r. (pos r.0, r.1)) (scan_unsigned (c ∷ s))

-- `%d` of `sscanf`: white space, an optional sign, digits. The value is the exact one: the standard
-- leaves open what a number outside of `int` gives.
unfoldable pub scan_int : Bytes → Option (ℤ × Bytes)
unfolding skip_space scan_signed
scan_int s = scan_signed (skip_space s)

-- a literal of the format
unfoldable pub scan_literal : Bytes → Bytes → Option Bytes
scan_literal [] s = some s
scan_literal (c ∷ p) [] = none
scan_literal (c ∷ p) (x ∷ s) = if x == c then scan_literal p s else none
