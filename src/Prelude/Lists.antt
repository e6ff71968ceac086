-- ===== src/Prelude/Lists.antt =====
-- Lists measured and indexed by native numbers, under the library's names.
use Prim.Native.Nat.{ℕ, zero, suc, ◌+◌}
use mathlib.Core.Path.{◌≡◌, refl, ap}
use mathlib.Core.List.{List, [], ◌∷◌, ◌++◌, reverse}
use mathlib.Core.List.{reverse-cons}
use native.Mathlib.Omega.{arith}

module _ {ℓ} {A : Type ℓ} where
  abbrev pub length : List A → ℕ
  length [] = 0
  length (x ∷ xs) = suc (length xs)

  abbrev pub get_or : List A → ℕ → A → A
  get_or [] i d = d
  get_or (x ∷ xs) zero d = x
  get_or (x ∷ xs) (suc i) d = get_or xs i d

  -- A write out of bounds changes nothing.
  abbrev pub set : List A → ℕ → A → List A
  set [] i v = []
  set (x ∷ xs) zero v = v ∷ xs
  set (x ∷ xs) (suc i) v = x ∷ set xs i v

  abbrev pub take : ℕ → List A → List A
  take zero xs = []
  take (suc n) [] = []
  take (suc n) (x ∷ xs) = x ∷ take n xs

  abbrev pub drop : ℕ → List A → List A
  drop zero xs = xs
  drop (suc n) [] = []
  drop (suc n) (x ∷ xs) = drop n xs

  abbrev pub replicate : ℕ → A → List A
  replicate zero a = []
  replicate (suc n) a = a ∷ replicate n a

  abbrev pub All {κ} : (A → Type κ) → List A → Type κ
  All P [] = Unit
  All P (x ∷ xs) = P x × All P xs

module _ {ℓ} {A : Type ℓ} where
  pub length-append : (xs ys : List A) → length (xs ++ ys) ≡ length xs + length ys
  length-append [] ys = omega arith
  length-append (x ∷ xs) ys = omega (arith, length-append xs ys)

  pub length-replicate : (n : ℕ) (a : A) → length (replicate n a) ≡ n
  length-replicate zero a = refl
  length-replicate (suc n) a = ap suc (length-replicate n a)

  pub length-reverse : (xs : List A) → length (reverse xs) ≡ length xs
  length-reverse [] = refl
  length-reverse (x ∷ xs) =
      rw reverse-cons (omega (arith, length-append (reverse xs) (x ∷ []), length-reverse xs))

  pub take-append-drop : (n : ℕ) (xs : List A) → take n xs ++ drop n xs ≡ xs
  take-append-drop zero xs = refl
  take-append-drop (suc n) [] = refl
  take-append-drop (suc n) (x ∷ xs) = rw (take-append-drop n xs)

  pub get_or_middle :
      (xs : List A) (y : A) (zs : List A) (d : A) → get_or (xs ++ y ∷ zs) (length xs) d ≡ y
  get_or_middle [] y zs d = refl
  get_or_middle (x ∷ xs) y zs d = get_or_middle xs y zs d

  pub set_middle :
      (xs : List A) (y : A) (zs : List A) (v : A) → set (xs ++ y ∷ zs) (length xs) v ≡ xs ++ v ∷ zs
  set_middle [] y zs v = refl
  set_middle (x ∷ xs) y zs v = ap (◌∷◌ x) (set_middle xs y zs v)

  -- A list is empty, or has a last element.
  pub data Snoc : List A → Type ℓ where
    empty : Snoc []
    last : (xs : List A) (x : A) → Snoc (xs ++ x ∷ [])

  pub Snoc-view : (xs : List A) → Snoc xs
  Snoc-view [] = empty
  Snoc-view (x ∷ xs) = grow x (Snoc-view xs)
    where
      grow : (y : A) {ys : List A} → Snoc ys → Snoc (y ∷ ys)
      grow y empty = last [] y
      grow y (last zs z) = last (y ∷ zs) z

module _ {ℓ κ} {A : Type ℓ} (P : A → Type κ) where
  pub All-append : (xs ys : List A) → All P xs → All P ys → All P (xs ++ ys)
  All-append [] ys hx hy = hy
  All-append (x ∷ xs) ys (px, hx) hy = (px, All-append xs ys hx hy)

  pub All-append_left : (xs ys : List A) → All P (xs ++ ys) → All P xs
  All-append_left [] ys h = tt
  All-append_left (x ∷ xs) ys (px, h) = (px, All-append_left xs ys h)

  pub All-append_right : (xs ys : List A) → All P (xs ++ ys) → All P ys
  All-append_right [] ys h = h
  All-append_right (x ∷ xs) ys (px, h) = All-append_right xs ys h

  pub All-replicate : (n : ℕ) (a : A) → P a → All P (replicate n a)
  All-replicate zero a p = tt
  All-replicate (suc n) a p = (p, All-replicate n a p)

  pub All-reverse : (xs : List A) → All P xs → All P (reverse xs)
  All-reverse [] h = tt
  All-reverse (x ∷ xs) (px, h) =
      rw reverse-cons (All-append (reverse xs) (x ∷ []) (All-reverse xs h) (px, tt))

pub All-map {ℓ κ μ} :
    {A : Type ℓ} {P : A → Type κ} {Q : A → Type μ} (xs : List A)
    → ((a : A) → P a → Q a)
    → All P xs
    → All Q xs
All-map [] f h = tt
All-map (x ∷ xs) f (px, h) = (f x px, All-map xs f h)

module _ {ℓ} {A : Type ℓ} where
  unfoldable pub update : ℕ → (A → A) → List A → List A
  update i g [] = []
  update zero g (x ∷ xs) = g x ∷ xs
  update (suc i) g (x ∷ xs) = x ∷ update i g xs

  unfoldable pub sum : (A → ℕ) → List A → ℕ
  sum f [] = 0
  sum f (x ∷ xs) = f x + sum f xs

  pub length-update : (i : ℕ) (g : A → A) (xs : List A) → length (update i g xs) ≡ length xs
  unfolding update
  length-update i g [] = refl
  length-update zero g (x ∷ xs) = refl
  length-update (suc i) g (x ∷ xs) = ap suc (length-update i g xs)

  pub All-update {κ} :
      (P : A → Type κ) (i : ℕ) (g : A → A) (xs : List A)
      → ((x : A) → P x → P (g x))
      → All P xs
      → All P (update i g xs)
  unfolding update
  All-update P i g [] h a = tt
  All-update P zero g (x ∷ xs) h (p, a) = (h x p, a)
  All-update P (suc i) g (x ∷ xs) h (p, a) = (p, All-update P i g xs h a)

  -- A sum does not see an update of an element that keeps its part.
  pub sum-update {κ} :
      (P : A → Type κ) (f : A → ℕ) (i : ℕ) (g : A → A) (xs : List A)
      → ((x : A) → P x → f (g x) ≡ f x)
      → All P xs
      → sum f (update i g xs) ≡ sum f xs
  unfolding update sum
  sum-update P f i g [] h a = refl
  sum-update P f zero g (x ∷ xs) h (p, a) = omega (arith, h x p)
  sum-update P f (suc i) g (x ∷ xs) h (p, a) = omega (arith, sum-update P f i g xs h a)

  pub sum_zero : (f : A → ℕ) (xs : List A) → All (λ x. f x ≡ 0) xs → sum f xs ≡ 0
  unfolding sum
  sum_zero f [] h = refl
  sum_zero f (x ∷ xs) (e, h) = omega (arith, sum_zero f xs h)

pub All-both {ℓ κ μ} :
    {A : Type ℓ} (P : A → Type κ) (Q : A → Type μ) (xs : List A)
    → All P xs
    → All Q xs
    → All (λ x. P x × Q x) xs
All-both P Q [] p q = tt
All-both P Q (x ∷ xs) p q = ((p.0, q.0), All-both P Q xs p.1 q.1)
