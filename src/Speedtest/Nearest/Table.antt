-- ===== src/Speedtest/Nearest/Table.antt =====
-- What the table holds: the nearest servers so far, in order.
use gemtek_sw_training.Prelude.{
  if◌then◌else◌, ne→==_false, Bool-cases, length, take, ℕ, zero, suc, ◌≤◌, ◌≡◌, refl, ap, ◌≢◌, inl,
  inr, true, false, List, [], ◌∷◌, arith, Bytes,
}
use gemtek_sw_training.Speedtest.Double.{Double}
use gemtek_sw_training.Speedtest.Server.{ServerData, zero_server}
use gemtek_sw_training.Speedtest.Nearest.{
  Candidate, store, listed, shift, place, is_free, insert_server,
}

module _ (F : Double) where
  open F use {Number, le}

  -- A named server has a URL: its first byte is not NUL.
  abbrev pub IsNamed : Candidate F → Type 0
  IsNamed c = (x : ℕ) × (r : Bytes) × (c.url ≡ x ∷ r) × (x ≢ 0)

  -- Insertion by distance, behind the nearer ones and before those as far.
  unfoldable pub rank : Candidate F → List (Candidate F) → List (Candidate F)
  rank c [] = c ∷ []
  rank c (d ∷ ds) = if le c.distance d.distance then c ∷ d ∷ ds else d ∷ rank c ds

  -- The servers `cs` fill the first slots, and the rest are free.
  abbrev pub Holds : List (ServerData F) → List (Candidate F) → Type 0
  Holds [] [] = Unit
  Holds [] (c ∷ cs) = ⊥
  Holds (s ∷ slots) [] = (is_free F s ≡ true) × Holds slots []
  Holds (s ∷ slots) (c ∷ cs) = (is_free F s ≡ false) × (listed F s ≡ c) × Holds slots cs

  named_taken : (c : Candidate F) (s : ServerData F) → IsNamed c → is_free F (store F c s) ≡ false
  named_taken c s (x, r, e, h) = rw e (ne→==_false x 0 h)

  taken_store :
      (t s : ServerData F) → is_free F t ≡ false → is_free F (store F (listed F t) s) ≡ false
  taken_store t s h = h

  length-Holds :
      (slots : List (ServerData F)) (cs : List (Candidate F))
      → Holds slots cs
      → length cs ≤ length slots
  length-Holds [] [] h = omega arith
  length-Holds [] (c ∷ cs) h = elim h [ ]
  length-Holds (s ∷ slots) [] h = omega arith
  length-Holds (s ∷ slots) (c ∷ cs) h = omega (arith, length-Holds slots cs h.2)

  shift_free :
      (b : ServerData F) (slots : List (ServerData F))
      → is_free F b ≡ true
      → Holds slots []
      → Holds (shift F b slots) []
  unfolding shift
  shift_free b [] hb h = tt
  shift_free b (s ∷ []) hb h = (hb, tt)
  shift_free b (s ∷ t ∷ rest) hb h = (hb, shift_free s (t ∷ rest) h.0 h.1)

  -- Shifting moves each server one slot on, and drops the last where the table is full.
  shift-Holds :
      (b : ServerData F) (slots : List (ServerData F)) (cs : List (Candidate F))
      → is_free F b ≡ false
      → Holds slots cs
      → Holds (shift F b slots) (take (length slots) (listed F b ∷ cs))
  unfolding shift
  shift-Holds b [] [] hb h = tt
  shift-Holds b [] (c ∷ cs) hb h = elim h [ ]
  shift-Holds b (s ∷ []) [] hb h = (hb, refl, tt)
  shift-Holds b (s ∷ []) (c ∷ cs) hb h = (hb, refl, tt)
  shift-Holds b (s ∷ t ∷ rest) [] hb h = (hb, refl, shift_free s (t ∷ rest) h.0 h.1)
  shift-Holds b (s ∷ t ∷ rest) (c ∷ cs) hb h =
      (hb, refl, rw (← h.1) (shift-Holds s (t ∷ rest) cs h.0 h.2))

  place-Holds :
      (c : Candidate F) (s : ServerData F) (rest : List (ServerData F)) (cs : List (Candidate F))
      → IsNamed c
      → Holds (s ∷ rest) cs
      → Holds (place F c (s ∷ rest)) (take (suc (length rest)) (c ∷ cs))
  unfolding place
  place-Holds c s [] cs named h = (named_taken c (zero_server F) named, refl, tt)
  place-Holds c s (t ∷ rest) [] named h =
      (named_taken c s named, refl, shift_free s (t ∷ rest) h.0 h.1)
  place-Holds c s (t ∷ rest) (d ∷ ds) named h =
      (named_taken c s named, refl, rw (← h.1) (shift-Holds s (t ∷ rest) ds h.0 h.2))

  Holds-nil : (slots : List (ServerData F)) (n : ℕ) → Holds slots [] → Holds slots (take n [])
  Holds-nil slots zero h = h
  Holds-nil slots (suc n) h = h

  -- The loop puts a server into its place: the table holds the first of the ranking, as many as fit.
  pub insert-Holds :
      (c : Candidate F) (slots : List (ServerData F)) (cs : List (Candidate F))
      → IsNamed c
      → Holds slots cs
      → Holds (insert_server F c slots) (take (length slots) (rank c cs))
  unfolding insert_server rank
  insert-Holds c [] [] named h = tt
  insert-Holds c [] (d ∷ ds) named h = elim h [ ]
  insert-Holds c (s ∷ rest) [] named h =
      rw (h.0) (named_taken c s named, refl, Holds-nil rest (length rest) h.1)
  insert-Holds c (s ∷ rest) (d ∷ ds) named h = elim (Bool-cases (le c.distance s.distance)) [
    | inl e ↦
        let near : le c.distance d.distance ≡ true = rw (← h.1) e in
        rw (h.0, e, near) (place-Holds c s rest (d ∷ ds) named h)
    | inr e ↦
        let far : le c.distance d.distance ≡ false = rw (← h.1) e in
        rw (h.0, e, far) (h.0, h.1, insert-Holds c rest ds named h.2)
  ]

  length-shift :
      (b : ServerData F) (slots : List (ServerData F)) → length (shift F b slots) ≡ length slots
  unfolding shift
  length-shift b [] = refl
  length-shift b (s ∷ []) = refl
  length-shift b (s ∷ t ∷ rest) = ap suc (length-shift s (t ∷ rest))

  length-place :
      (c : Candidate F) (slots : List (ServerData F)) → length (place F c slots) ≡ length slots
  unfolding place
  length-place c [] = refl
  length-place c (s ∷ []) = refl
  length-place c (s ∷ t ∷ rest) = ap suc (length-shift s (t ∷ rest))

  pub length-insert_server :
      (c : Candidate F) (slots : List (ServerData F))
      → length (insert_server F c slots) ≡ length slots
  unfolding insert_server
  length-insert_server c [] = refl
  length-insert_server c (s ∷ rest) =
      ground (arith, length-place c (s ∷ rest), length-insert_server c rest)

  take_cons :
      (m : ℕ) (x : Candidate F) (xs : List (Candidate F)) → take m (x ∷ take m xs) ≡ take m (x ∷ xs)
  take_cons zero x xs = refl
  take_cons (suc zero) x xs = refl
  take_cons (suc (suc m)) x [] = refl
  take_cons (suc (suc m)) x (y ∷ ys) = ap (λ t. x ∷ t) (take_cons (suc m) y ys)

  -- What falls out of the table never comes back.
  pub take-rank :
      (n : ℕ) (c : Candidate F) (cs : List (Candidate F))
      → take n (rank c (take n cs)) ≡ take n (rank c cs)
  unfolding rank
  take-rank zero c cs = refl
  take-rank (suc n) c [] = refl
  take-rank (suc n) c (d ∷ ds) = elim (Bool-cases (le c.distance d.distance)) [
    | inl e ↦ rw e (ap (◌∷◌ c) (take_cons n d ds))
    | inr e ↦ rw e (ap (◌∷◌ d) (take-rank n c ds))
  ]
