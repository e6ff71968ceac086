-- ===== src/Common/Reverse.antt =====
-- In-place reversal is list reversal.
use gemtek_sw_training.Prelude.{
  lt→ltb, le→ltb_false, length, get_or, set, length-append, get_or_middle, set_middle, Snoc, empty,
  last, Snoc-view, ℕ, zero, suc, ◌+◌, ◌-◌, ◌≤◌, ◌<◌, ◌≡◌, refl, sym, ◌∙◌, [], ◌∷◌, ◌++◌,
  append_assoc, reverse-append, reverse-cons, reverse, arith, Bytes,
}
use gemtek_sw_training.Common.{reverse_str, swap, reverse_loop}

get_at : (xs : Bytes) (y : ℕ) (zs : Bytes) (j : ℕ) → j ≡ length xs → get_or (xs ++ y ∷ zs) j 0 ≡ y
get_at xs y zs j e = rw e (get_or_middle xs y zs 0)

set_at :
    (xs : Bytes) (y : ℕ) (zs : Bytes) (v j : ℕ)
    → j ≡ length xs
    → set (xs ++ y ∷ zs) j v ≡ xs ++ v ∷ zs
set_at xs y zs v j e = rw e (set_middle xs y zs v)

-- One round swaps the ends of the middle part.
swap-middle :
    (pre mid post : Bytes) (a b i j : ℕ)
    → i ≡ length pre
    → j ≡ length pre + suc (length mid)
    → swap (pre ++ a ∷ (mid ++ b ∷ post)) i j ≡ pre ++ b ∷ (mid ++ a ∷ post)
unfolding swap
swap-middle pre mid post a b i j hi hj =
    rw
      (get_at pre a (mid ++ b ∷ post) i hi, get_b, set_at pre a (mid ++ b ∷ post) b i hi, assoc b b)
      (set_at (pre ++ b ∷ mid) b post a j (omega (arith, length-append pre (b ∷ mid)))
        ∙ append_assoc pre (b ∷ mid) (a ∷ post))
  where
    assoc : (x y : ℕ) → pre ++ x ∷ (mid ++ y ∷ post) ≡ (pre ++ x ∷ mid) ++ y ∷ post
    assoc x y = sym (append_assoc pre (x ∷ mid) (y ∷ post))

    get_b : get_or (pre ++ a ∷ (mid ++ b ∷ post)) j 0 ≡ b
    get_b =
        rw (assoc a b)
          (get_at (pre ++ a ∷ mid) b post j (omega (arith, length-append pre (a ∷ mid))))

reverse_loop_stop : (fuel : ℕ) (str : Bytes) (i j : ℕ) → j ≤ i → reverse_loop fuel str i j ≡ str
unfolding reverse_loop
reverse_loop_stop zero str i j h = refl
reverse_loop_stop (suc fuel) str i j h = rw (le→ltb_false i j h, reverse_loop)

reverse_loop_round :
    (fuel : ℕ) (str : Bytes) (i j : ℕ)
    → i < j
    → reverse_loop (suc fuel) str i j ≡ reverse_loop fuel (swap str i j) (i + 1) (j - 1)
unfolding reverse_loop
reverse_loop_round fuel str i j h = rw (lt→ltb i j h, reverse_loop)

-- A list by its two ends.
data Ends : Bytes → Type 0 where
  none : Ends []
  one : (a : ℕ) → Ends (a ∷ [])
  both : (a : ℕ) (mid : Bytes) (b : ℕ) → Ends (a ∷ (mid ++ b ∷ []))

Ends-cons : (a : ℕ) {ys : Bytes} → Snoc ys → Ends (a ∷ ys)
Ends-cons a empty = one a
Ends-cons a (last mid b) = both a mid b

ends : (mid : Bytes) → Ends mid
ends [] = none
ends (a ∷ ys) = Ends-cons a (Snoc-view ys)

reverse_both :
    (a b : ℕ) (mid post : Bytes)
    → reverse (a ∷ (mid ++ b ∷ [])) ++ post ≡ b ∷ (reverse mid ++ a ∷ post)
reverse_both a b mid post = rw (reverse-cons, reverse-append mid (b ∷ []), append_assoc) refl

-- The loop reverses what lies between its two indices, and leaves the rest alone.
reverse_loop-middle :
    (fuel : ℕ) (pre : Bytes) {mid : Bytes} (post : Bytes) (i j : ℕ)
    → Ends mid
    → i ≡ length pre
    → j ≡ length pre + length mid - 1
    → length mid ≤ fuel
    → reverse_loop fuel (pre ++ (mid ++ post)) i j ≡ pre ++ (reverse mid ++ post)
reverse_loop-middle fuel pre post i j none hi hj hf = reverse_loop_stop fuel _ i j (omega arith)
reverse_loop-middle fuel pre post i j (one a) hi hj hf = reverse_loop_stop fuel _ i j (omega arith)
reverse_loop-middle zero pre post i j (both a mid b) hi hj hf = absurd (omega arith)
reverse_loop-middle (suc fuel) pre post i j (both a mid b) hi hj hf =
    rw
      (
        append_assoc mid (b ∷ []) post,
        reverse_loop_round fuel _ i j (omega (arith, size)),
        swap-middle pre mid post a b i j hi (omega (arith, size)),
        reverse_both a b mid post,
        ← append_assoc pre (b ∷ []) (mid ++ a ∷ post),
      )
      (reverse_loop-middle fuel (pre ++ b ∷ []) (a ∷ post) (i + 1) (j - 1) (ends mid)
          (omega (arith, length-append pre (b ∷ [])))
          (omega (arith, size, length-append pre (b ∷ []))) (omega (arith, size))
        ∙ append_assoc pre (b ∷ []) (reverse mid ++ a ∷ post))
  where
    size : length (mid ++ b ∷ []) ≡ length mid + 1
    size = omega (arith, length-append mid (b ∷ []))

-- The first `len` bytes of the buffer are reversed, and the rest is left alone.
pub reverse_str_lem :
    (str rest : Bytes) → reverse_str (str ++ rest) (length str) ≡ reverse str ++ rest
unfolding reverse_str
reverse_str_lem str rest =
    reverse_loop-middle (length str) [] rest 0 (length str - 1) (ends str) refl (omega arith)
      (omega arith)
