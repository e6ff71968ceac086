-- ===== src/CString/Texts.antt =====
-- A stream of complete lines that fit into the buffer of `fgets`.
use gemtek_sw_training.Prelude.{
  length, All, length-append, ℕ, zero, suc, ◌≤◌, ◌<◌, ◌≡◌, refl, ap, List, [], ◌∷◌, ◌++◌, arith,
  Bytes,
}
use gemtek_sw_training.CString.{fgets, lines, lines_loop}
use gemtek_sw_training.CString.Search.{Lacks}
use gemtek_sw_training.CString.Lines.{line_of_complete, lines_loop_line}

-- The stream of these lines, each with its newline, and the lines as they are read.
unfoldable pub text_of : List Bytes → Bytes
text_of [] = []
text_of (l ∷ ls) = l ++ b'\n' ∷ text_of ls

unfoldable pub ended : List Bytes → List Bytes
ended [] = []
ended (l ∷ ls) = (l ++ b'\n' ∷ []) ∷ ended ls

-- One line of at most `n` bytes with its newline.
abbrev pub IsLine : ℕ → Bytes → Type 0
IsLine n l = Lacks b'\n' l × (length l < n)

length-text_of : (ls : List Bytes) → length ls ≤ length (text_of ls)
unfolding text_of
length-text_of [] = omega arith
length-text_of (l ∷ ls) = omega (arith, length-text_of ls, length-append l (b'\n' ∷ text_of ls))

lines_loop-text_of :
    (fuel n : ℕ) (ls : List Bytes)
    → All (IsLine n) ls
    → length ls ≤ fuel
    → lines_loop fuel n (text_of ls) ≡ ended ls
unfolding text_of ended
lines_loop-text_of zero n [] h k = unfold lines_loop in refl
lines_loop-text_of (suc fuel) n [] h k = unfold lines_loop fgets in refl
lines_loop-text_of zero n (l ∷ ls) h k = absurd (omega arith)
lines_loop-text_of (suc fuel) n (l ∷ ls) ((a, b), h) k =
    rw (lines_loop_line fuel n l (text_of ls), line_of_complete n l (text_of ls) a b)
      (ap (λ r. (l ++ b'\n' ∷ []) ∷ r) (lines_loop-text_of fuel n ls h (omega arith)))

pub lines-text_of : (n : ℕ) (ls : List Bytes) → All (IsLine n) ls → lines n (text_of ls) ≡ ended ls
unfolding lines
lines-text_of n ls h = lines_loop-text_of (length (text_of ls)) n ls h (length-text_of ls)
