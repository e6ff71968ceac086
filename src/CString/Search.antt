-- ===== src/CString/Search.antt =====
-- Facts about `strcmp`, `strchr`, `strrchr` and the NUL that ends a string.
use gemtek_sw_training.Prelude.{
  ==_refl, ne→==_false, Option-cases, All, ℕ, ◌≡◌, refl, ◌∙◌, ◌≢◌, ◌↔◌, inl, inr, true, false, none,
  some, [], ◌∷◌, ◌++◌, arith, Bytes,
}
use mathlib.Core.Path.{subst}
use gemtek_sw_training.CString.{has_char, after_last, str_eq, c_str}

pub str_eq_iff : (s t : Bytes) → (str_eq s t ≡ true) ↔ (s ≡ t)
unfolding str_eq
str_eq_iff [] [] = (λ _. refl, λ _. refl)
str_eq_iff [] (y ∷ t) = (λ h. cc, λ h. cc)
str_eq_iff (x ∷ s) [] = (λ h. cc, λ h. cc)
str_eq_iff (x ∷ s) (y ∷ t) =
    (λ h. ground (arith, (str_eq_iff s t).0), λ h. ground (arith, (str_eq_iff s t).1))

pub str_eq_refl : (s : Bytes) → str_eq s s ≡ true
str_eq_refl s = (str_eq_iff s s).1 refl

-- The text holds no `c`.
abbrev pub Lacks : ℕ → Bytes → Type 0
Lacks c = All (λ x. x ≢ c)

pub has_char-false : (c : ℕ) (s : Bytes) → (has_char c s ≡ false) ↔ Lacks c s
unfolding has_char
has_char-false c [] = (λ _. tt, λ _. refl)
has_char-false c (x ∷ s) = (
  λ h. (ground arith, (has_char-false c s).0 (ground arith)),
  λ h. ground (arith, (has_char-false c s).1 h.1),
)

pub c_str-Lacks : (s : Bytes) → Lacks 0 s → c_str s ≡ s
unfolding c_str
c_str-Lacks [] h = refl
c_str-Lacks (x ∷ s) (hx, h) = rw (ne→==_false x 0 hx, c_str-Lacks s h) refl

pub after_last_none : (c : ℕ) (s : Bytes) → Lacks c s → after_last c s ≡ none
unfolding after_last
after_last_none c [] h = refl
after_last_none c (x ∷ s) (hx, h) = rw (after_last_none c s h, ne→==_false x c hx, after_last) refl

pub after_last-append : (c : ℕ) (s t : Bytes) → Lacks c t → after_last c (s ++ c ∷ t) ≡ some t
unfolding after_last
after_last-append c [] t h = rw (after_last_none c t h, ==_refl c, after_last) refl
after_last-append c (x ∷ s) t h = rw (after_last-append c s t h, after_last) refl

Lacks-of_none : (c : ℕ) (s : Bytes) → after_last c s ≡ none → Lacks c s
unfolding after_last
Lacks-of_none c [] h = tt
Lacks-of_none c (x ∷ s) h = (ground arith, Lacks-of_none c s (ground arith))

-- What stands behind the last `c` holds no `c`.
pub after_last-Lacks : (c : ℕ) (s : Bytes) {t : Bytes} → after_last c s ≡ some t → Lacks c t
after_last-Lacks c [] h = unfold after_last in absurd (cc)
after_last-Lacks c (x ∷ s) {t} h = elim (Option-cases (after_last c s)) [
  | inl e ↦ subst (Lacks c) (behind e) (Lacks-of_none c s e)
  | inr (u, e) ↦ after_last-Lacks c s (e ∙ deeper u e)
]
  where
    behind : after_last c s ≡ none → s ≡ t
    behind e = unfold after_last in ground arith

    deeper : (u : Bytes) → after_last c s ≡ some u → some u ≡ some t
    deeper u e = unfold after_last in ground arith
