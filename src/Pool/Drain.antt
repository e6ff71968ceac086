-- ===== src/Pool/Drain.antt =====
-- Threads whose calls all fail, once the timer has gone off: each of them comes to its end.
use gemtek_sw_training.Prelude.{
  Bool-cases, sum, All, ℕ, suc, ◌+◌, ◌*◌, ◌<◌, ◌≡◌, refl, ◌⊎◌, inl, inr, true, false, negsuc, List,
  [], ◌∷◌, arith,
}
use gemtek_sw_training.Http.{failed}
use gemtek_sw_training.Transfer.{Worker}
use gemtek_sw_training.Pool.{
  Input, Action, go, count, leave, abandon, Job, Place, at, lock, load, store, unlock, finish, gone,
  lost, Slot, Shared, act, place_turn, thread_turn, turn_at, has_gone,
}
use gemtek_sw_training.Pool.Mutex.{in_lock, has_lock, free}

-- Every call fails.
abbrev pub dead : Input
dead = record {
  sockfd = negsuc 0;
  status = negsuc 0;
  sent = negsuc 0;
  ssl_status = negsuc 0;
  ssl_sent = negsuc 0;
  round = record { selected = true; received = failed };
}

-- What an action leaves to do is less than `n`.
abbrev pub Lower : {L : Type 0} → (L → ℕ) → Action L → ℕ → Type 0
Lower left (go l) n = left l < n
Lower left (count m l) n = left l < n
Lower left leave n = Unit {0}
Lower left abandon n = Unit {0}

-- A body that comes to its end when every call fails and `thread_all_stop` is set.
pub record Stops (J : Job) : Type 0 where
  pub left : J.Local → ℕ
  pub lower : (w : Worker) (l : J.Local) → Lower left (J.step w dead true l) (left l)

abbrev pub AllGone : (J : Job) → List (Slot J) → Type 0
AllGone J = All (λ (t : Slot J). has_gone J t.place ≡ true)

module _ (J : Job) (S : Stops J) where
  open J use {Local}
  open S use {left, lower}

  -- A bound for the steps that are left.
  abbrev rank : Place Local → ℕ
  rank gone = 0
  rank lost = 0
  rank finish = 1
  rank (at l) = 2 + 6 * left l
  rank (unlock l) = 3 + 6 * left l
  rank (store n v l) = 4 + 6 * left l
  rank (load n l) = 5 + 6 * left l
  rank (lock n l) = 6 + 6 * left l

  abbrev pub slot_rank : Slot J → ℕ
  slot_rank t = rank t.place

  act-Lower : (a : Action Local) (n : ℕ) → Lower left a n → rank (act J a) < 2 + 6 * n
  unfolding act
  act-Lower (go l) n h = omega arith
  act-Lower (count m l) n h = omega arith
  act-Lower leave n h = omega arith
  act-Lower abandon n h = omega arith

  -- The thread that is in the mutex comes nearer to its end.
  owner_lower :
      (p : Place Local) (t : Slot J) (s : Shared)
      → (in_lock J p ≡ 0) ⊎ (slot_rank (place_turn J dead true p t s).0 < rank p)
  unfolding place_turn
  owner_lower gone t s = inl refl
  owner_lower lost t s = inl refl
  owner_lower finish t s = inl refl
  owner_lower (at l) t s = inl refl
  owner_lower (lock n l) t s = inl refl
  owner_lower (unlock l) t s = inr (omega arith)
  owner_lower (store n v l) t s = inr (omega arith)
  owner_lower (load n l) t s = inr (omega arith)

  -- While the mutex is free, every thread does that has not ended.
  free_lower :
      (p : Place Local) (t : Slot J) (s : Shared)
      → s.locked ≡ false
      → (has_gone J p ≡ true) ⊎ (slot_rank (place_turn J dead true p t s).0 < rank p)
  unfolding place_turn
  free_lower gone t s h = inl refl
  free_lower lost t s h = inl refl
  free_lower finish t s h = inr (omega arith)
  free_lower (at l) t s h =
      inr (act-Lower (J.step t.worker dead true l) (left l) (lower t.worker l))
  free_lower (unlock l) t s h = inr (omega arith)
  free_lower (store n v l) t s h = inr (omega arith)
  free_lower (load n l) t s h = inr (omega arith)
  free_lower (lock n l) t s h = inr (rw h (omega arith))

  abbrev pub Nearer : ℕ → List (Slot J) → Shared → Type 0
  Nearer k ts s = sum slot_rank (turn_at J k dead true ts s).0 < sum slot_rank ts

  Nearer-suc :
      (k : ℕ) (t : Slot J) (ts : List (Slot J)) (s : Shared)
      → Nearer k ts s
      → Nearer (suc k) (t ∷ ts) s
  unfolding turn_at sum
  Nearer-suc k t ts s h = omega arith

  Nearer-zero :
      (t : Slot J) (ts : List (Slot J)) (s : Shared)
      → slot_rank (place_turn J dead true t.place t s).0 < slot_rank t
      → Nearer 0 (t ∷ ts) s
  unfolding turn_at thread_turn sum
  Nearer-zero t ts s h = omega arith

  unlocked-Nearer :
      (ts : List (Slot J)) (s : Shared)
      → s.locked ≡ false
      → AllGone J ts ⊎ ((k : ℕ) × Nearer k ts s)
  unlocked-Nearer [] s e = inl tt
  unlocked-Nearer (t ∷ ts) s e = elim (free_lower t.place t s e) [
    | inr h ↦ inr (0, Nearer-zero t ts s h)
    | inl g ↦ elim (unlocked-Nearer ts s e) [
      | inl gs ↦ inl (g, gs)
      | inr (k, h) ↦ inr (suc k, Nearer-suc k t ts s h)
    ]
  ]

  owner-Nearer :
      (ts : List (Slot J)) (s : Shared) → sum (has_lock J) ts ≡ 1 → (k : ℕ) × Nearer k ts s
  unfolding sum
  owner-Nearer [] s e = absurd (omega arith)
  owner-Nearer (t ∷ ts) s e = elim (owner_lower t.place t s) [
    | inr h ↦ (0, Nearer-zero t ts s h)
    | inl z ↦ (let (k, h) = owner-Nearer ts s (omega arith) in (suc k, Nearer-suc k t ts s h))
  ]

  -- While a thread has not ended, some thread comes nearer to its end.
  pub some-Nearer :
      (ts : List (Slot J)) (s : Shared)
      → sum (has_lock J) ts + free J s ≡ 1
      → AllGone J ts ⊎ ((k : ℕ) × Nearer k ts s)
  some-Nearer ts s h = elim (Bool-cases s.locked) [
    | inl e ↦ (let f : free J s ≡ 0 = rw e refl in inr (owner-Nearer ts s (omega (arith, h, f))))
    | inr e ↦ unlocked-Nearer ts s e
  ]
