-- ===== src/Common.antt =====
-- The string helpers of Mini-Project/Application/src/common.c: `reverse` and `intToStr`; `ftoa` is in Ftoa.
-- A `char *` is the list of the bytes written so far.
pub mod Reverse
pub mod Decimal
pub mod Ftoa
use gemtek_sw_training.Prelude.{
  ltb, ◌==◌, if◌then◌else◌, length, get_or, set, ℕ, zero, suc, ◌+◌, ◌-◌, ◌/◌, ◌%◌, Bool, true,
  false, ℤ, pos, negsuc, neg, magnitude, [], ◌∷◌, ◌++◌, Bytes,
}

swap : Bytes → ℕ → ℕ → Bytes
swap str i j = set (set str i (get_or str j 0)) j (get_or str i 0)

-- The `while (i < j)` of `reverse`; `len` rounds are more than enough.
reverse_loop : ℕ → Bytes → ℕ → ℕ → Bytes
reverse_loop zero str i j = str
reverse_loop (suc fuel) str i j = elim (ltb i j) [
  | true ↦ reverse_loop fuel (swap str i j) (i + 1) (j - 1)
  | false ↦ str
]

-- `j = len - 1` is -1 at `len = 0`, where the loop makes no round, as it does from 0.
unfoldable pub reverse_str : Bytes → ℕ → Bytes
unfolding reverse_loop swap
reverse_str str len = reverse_loop len str 0 (len - 1)

-- `x / 10` rounds towards zero.
abbrev tenth : ℤ → ℤ
tenth (pos n) = pos (n / 10)
tenth (negsuc n) = neg ((n + 1) / 10)

-- `(x % 10) + '0'`, where the remainder has the sign of `x`.
abbrev digit : ℤ → ℕ
digit (pos n) = n % 10 + b'0'
digit (negsuc n) = b'0' - (n + 1) % 10

abbrev is_zero : ℤ → Bool
is_zero (pos n) = n == 0
is_zero (negsuc n) = false

-- `while (x)`
emit : ℕ → ℤ → Bytes → Bytes
emit zero x str = str
emit (suc fuel) x str = elim (is_zero x) [
  | true ↦ str
  | false ↦ emit fuel (tenth x) (str ++ digit x ∷ [])
]

-- `while (i < d)`, where `i` is the length of `str`
pad : ℕ → Bytes → ℕ → Bytes
pad zero str d = str
pad (suc fuel) str d = elim (ltb (length str) d) [
  | true ↦ pad fuel (str ++ b'0' ∷ []) d
  | false ↦ str
]

-- The string that is left in `str`, and the returned `i`. The fuel is the number itself: each
-- round of `emit` divides it by ten.
unfoldable pub int_to_str : ℤ → ℕ → Bytes × ℕ
unfolding emit pad reverse_str
int_to_str x d =
    let first = if is_zero x then b'0' ∷ [] else [] in
    let str = pad d (emit (magnitude x) x first) d in let i = length str in (reverse_str str i, i)
