-- ===== src/CString/Tokens.antt =====
-- What `strtok` and `strstr` find in texts that are put together.
use gemtek_sw_training.Prelude.{
  ◌==◌, ==_iff, ==_refl, ne→==_false, Bool-cases, length, ℕ, ◌<◌, ◌≡◌, refl, sym, ◌∙◌, inl, inr,
  true, false, some, [], ◌∷◌, ◌++◌, append_assoc, append-nil, arith, Bytes,
}
use gemtek_sw_training.CString.{has_char, starts_with, find_text, token_loop, tokens}
use gemtek_sw_training.CString.Search.{Lacks}

-- A text that `strtok` returns as it is.
pub record IsToken (c : ℕ) (w : Bytes) : Type 0 where
  pub some_byte : 0 < length w
  pub no_delimiter : Lacks c w

token_loop-append :
    (c y : ℕ) (cur w t : Bytes)
    → Lacks c w
    → token_loop c (w ++ c ∷ t) (y ∷ cur) ≡ (y ∷ (cur ++ w)) ∷ tokens c t
unfolding token_loop tokens
token_loop-append c y cur [] t h = rw (==_refl c, append-nil cur) refl
token_loop-append c y cur (x ∷ w) t (hx, h) =
    rw
      (ne→==_false x c hx, token_loop-append c y (cur ++ x ∷ []) w t h, append_assoc cur (x ∷ []) w)
      refl

token_loop_last :
    (c y : ℕ) (cur w : Bytes) → Lacks c w → token_loop c w (y ∷ cur) ≡ (y ∷ (cur ++ w)) ∷ []
unfolding token_loop
token_loop_last c y cur [] h = rw (append-nil cur) refl
token_loop_last c y cur (x ∷ w) (hx, h) =
    rw (ne→==_false x c hx, token_loop_last c y (cur ++ x ∷ []) w h, append_assoc cur (x ∷ []) w)
      refl

pub tokens_delimiter : (c : ℕ) (t : Bytes) → tokens c (c ∷ t) ≡ tokens c t
unfolding tokens token_loop
tokens_delimiter c t = rw (==_refl c) refl

pub tokens-append : (c : ℕ) (w t : Bytes) → IsToken c w → tokens c (w ++ c ∷ t) ≡ w ∷ tokens c t
unfolding tokens token_loop
tokens-append c [] t h = absurd (let k = h.some_byte in omega arith)
tokens-append c (x ∷ w) t h =
    let n = h.no_delimiter in
    let read : token_loop c (x ∷ (w ++ c ∷ t)) [] ≡ (x ∷ w) ∷ token_loop c t [] =
      rw (ne→==_false x c n.0, token_loop) (token_loop-append c x [] w t n.1) in
    read

pub tokens_last : (c : ℕ) (w : Bytes) → IsToken c w → tokens c w ≡ w ∷ []
unfolding tokens token_loop
tokens_last c [] h = absurd (let k = h.some_byte in omega arith)
tokens_last c (x ∷ w) h =
    let n = h.no_delimiter in rw (ne→==_false x c n.0) (token_loop_last c x [] w n.1)

pub starts_with-append : (p t : Bytes) → starts_with p (p ++ t) ≡ true
unfolding starts_with
starts_with-append [] t = refl
starts_with-append (c ∷ p) t = rw (==_refl c, starts_with-append p t) refl

pub find_text-append : (p t : Bytes) → find_text p (p ++ t) ≡ some (p ++ t)
find_text-append [] [] = unfold find_text in refl
find_text-append [] (x ∷ t) = unfold find_text starts_with in refl
find_text-append (c ∷ p) t = unfold find_text in rw (starts_with-append (c ∷ p) t) refl

-- A text with a `c` and without a `d` does not begin in `pre`, which has no `c` and ends at a `d`.
starts_with_early :
    (c d : ℕ) (p pre t : Bytes)
    → has_char c p ≡ true
    → Lacks d p
    → Lacks c pre
    → starts_with p (pre ++ d ∷ t) ≡ false
unfolding starts_with has_char
starts_with_early c d [] pre t e n h = cc
starts_with_early c d (x ∷ p) [] t e (nx, n) h = rw (ne→==_false d x (λ k. nx (sym k))) refl
starts_with_early c d (x ∷ p) (y ∷ pre) t e (nx, n) (hy, h) = elim (Bool-cases (y == x)) [
  | inr k ↦ rw k refl
  | inl k ↦
      let same : y ≡ x = (==_iff y x).0 k in
      let later : has_char c p ≡ true = rw (← same, ne→==_false y c hy) at e in
      rw (k, starts_with_early c d p pre t later n h) refl
]

find_text_step :
    (p : Bytes) (x : ℕ) (s : Bytes)
    → starts_with p (x ∷ s) ≡ false
    → find_text p (x ∷ s) ≡ find_text p s
unfolding find_text
find_text_step p x s e = rw e refl

pub find_text_early :
    (c d : ℕ) (p pre t : Bytes)
    → has_char c p ≡ true
    → Lacks d p
    → Lacks c pre
    → find_text p (pre ++ d ∷ t) ≡ find_text p t
find_text_early c d p [] t e n h = find_text_step p d t (starts_with_early c d p [] t e n tt)
find_text_early c d p (y ∷ pre) t e n (hy, h) =
    find_text_step p y (pre ++ d ∷ t) (starts_with_early c d p (y ∷ pre) t e n (hy, h))
    ∙ find_text_early c d p pre t e n h
