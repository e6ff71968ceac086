-- ===== src/CString/Lines.antt =====
-- The last line of a stream of complete lines.
use gemtek_sw_training.Prelude.{
  ◌==◌, ne→==_false, Bool-cases, length, length-append, ℕ, zero, suc, ◌+◌, ◌≤◌, ◌<◌, ◌≡◌, refl, sym,
  inl, inr, some, [], ◌∷◌, ◌++◌, append_assoc, arith, Bytes,
}
use gemtek_sw_training.CString.{line_of, fgets, lines, lines_loop, last_of}
use gemtek_sw_training.CString.Search.{Lacks}

-- Nothing, or a text that a newline ends.
pub data EndsLine : Bytes → Type 0 where
  start : EndsLine []
  line : (p : Bytes) → EndsLine (p ++ b'\n' ∷ [])

record Left (p t rest : Bytes) : Type 0 where
  more : Bytes
  splits : rest ≡ more ++ t
  whole : EndsLine more
  shorter : length more ≤ length p

pub line_of_complete :
    (n : ℕ) (l t : Bytes)
    → Lacks b'\n' l
    → length l < n
    → line_of n (l ++ b'\n' ∷ t) ≡ (l ++ b'\n' ∷ [], t)
unfolding line_of
line_of_complete zero l t h k = absurd (omega arith)
line_of_complete (suc n) [] t h k = refl
line_of_complete (suc n) (c ∷ l) t (hc, h) k =
    rw (ne→==_false c b'\n' hc, line_of, line_of_complete n l t h (omega arith)) refl

keep : (c : ℕ) (p t : Bytes) → Left (c ∷ p) t (p ++ b'\n' ∷ t)
keep c p t = record {
  more = p ++ b'\n' ∷ [];
  splits = sym (append_assoc p (b'\n' ∷ []) t);
  whole = line p;
  shorter = omega (arith, length-append p (b'\n' ∷ []));
}

longer : (c : ℕ) {p t rest : Bytes} → Left p t rest → Left (c ∷ p) t rest
longer c f = record {
  more = f.more;
  splits = f.splits;
  whole = f.whole;
  shorter = omega (arith, f.shorter);
}

-- A read takes at least a byte of the lines before `t`, and nothing of `t`.
line_of-Left : (n : ℕ) (p t : Bytes) → Left p t (line_of (suc n) (p ++ b'\n' ∷ t)).1
unfolding line_of
line_of-Left n [] t = record { more = []; splits = refl; whole = start; shorter = omega arith }
line_of-Left zero (c ∷ p) t = elim (Bool-cases (c == b'\n')) [
  | inl e ↦ rw (e, line_of) (keep c p t)
  | inr e ↦ rw (e, line_of) (keep c p t)
]
line_of-Left (suc n) (c ∷ p) t = elim (Bool-cases (c == b'\n')) [
  | inl e ↦ rw (e, line_of) (keep c p t)
  | inr e ↦ rw (e, line_of) (longer c (line_of-Left n p t))
]

fgets_line : (n : ℕ) (p t : Bytes) → fgets n (p ++ b'\n' ∷ t) ≡ some (line_of n (p ++ b'\n' ∷ t))
unfolding fgets
fgets_line n [] t = refl
fgets_line n (c ∷ p) t = refl

lines_loop_end : (fuel n : ℕ) → lines_loop fuel n [] ≡ []
unfolding lines_loop fgets
lines_loop_end zero n = refl
lines_loop_end (suc fuel) n = refl

pub lines_loop_line :
    (fuel n : ℕ) (p t : Bytes)
    → lines_loop (suc fuel) n (p ++ b'\n' ∷ t)
      ≡ (line_of n (p ++ b'\n' ∷ t)).0 ∷ lines_loop fuel n (line_of n (p ++ b'\n' ∷ t)).1
unfolding lines_loop
lines_loop_line fuel n p t = rw (fgets_line n p t, lines_loop) refl

last_of-lines_loop :
    (fuel n : ℕ) {b : Bytes} (l cur : Bytes)
    → EndsLine b
    → Lacks b'\n' l
    → length l ≤ n
    → length b + length l < fuel
    → last_of (lines_loop fuel (suc n) (b ++ (l ++ b'\n' ∷ []))) cur ≡ l ++ b'\n' ∷ []
unfolding last_of
last_of-lines_loop zero n l cur e h k f = absurd (omega arith)
last_of-lines_loop (suc fuel) n l cur start h k f =
    rw
      (
        lines_loop_line fuel (suc n) l [],
        line_of_complete (suc n) l [] h (omega arith),
        lines_loop_end fuel (suc n),
      )
      refl
last_of-lines_loop (suc fuel) n l cur (line p) h k f =
    rw
      (
        append_assoc p (b'\n' ∷ []) (l ++ b'\n' ∷ []),
        lines_loop_line fuel (suc n) p (l ++ b'\n' ∷ []),
        last_of,
        splits,
      )
      (last_of-lines_loop fuel n l _ whole h k
        (omega (arith, length-append p (b'\n' ∷ []), shorter)))
  where
    open (line_of-Left n p (l ++ b'\n' ∷ [])) use {splits, whole, shorter}

-- A loop of `fgets` over complete lines ends with the last of them in its buffer, if that fits.
pub last_of-lines :
    (n : ℕ) {b : Bytes} (l cur : Bytes)
    → EndsLine b
    → Lacks b'\n' l
    → length l ≤ n
    → last_of (lines (suc n) (b ++ (l ++ b'\n' ∷ []))) cur ≡ l ++ b'\n' ∷ []
unfolding lines
last_of-lines n {b} l cur e h k =
    last_of-lines_loop _ n l cur e h k
      (omega (arith, length-append b (l ++ b'\n' ∷ []), length-append l (b'\n' ∷ [])))
