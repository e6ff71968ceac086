-- ===== src/Pool/Mutex.antt =====
-- What holds of one thread of a pool, and of two at once.
use gemtek_sw_training.Prelude.{
  if◌then◌else◌, Bool-cases, ℕ, ◌+◌, ◌≤◌, ◌≡◌, refl, sym, ◌≢◌, inl, inr, Bool, arith,
}
use gemtek_sw_training.Pool.{
  Input, Action, go, count, leave, abandon, Job, Place, at, lock, load, store, unlock, finish, gone,
  lost, Slot, Shared, act, place_turn,
}

module _ (J : Job) where
  open J use {Local}

  -- whether a place is between the lock and the unlock of the mutex
  abbrev pub in_lock : Place Local → ℕ
  in_lock (load n l) = 1
  in_lock (store n v l) = 1
  in_lock (unlock l) = 1
  in_lock p = 0

  abbrev pub has_lock : Slot J → ℕ
  has_lock t = in_lock t.place

  abbrev pub free : Shared → ℕ
  free s = if s.locked then 0 else 1

  -- What `running` says of the thread: 0 exactly if it has ended.
  abbrev pub RunningAt : Place Local → ℕ → Type 0
  RunningAt gone running = running ≡ 0
  RunningAt p running = running ≢ 0

  abbrev pub SlotOk : Slot J → Type 0
  SlotOk t = RunningAt t.place t.worker.running

  -- The value that was read is still the total.
  abbrev pub StoredAt : Place Local → ℕ → Type 0
  StoredAt (store n v l) total = v ≡ total
  StoredAt p total = Unit {0}

  abbrev pub IsStored : ℕ → Slot J → Type 0
  IsStored total t = StoredAt t.place total

  act_free : (a : Action Local) → in_lock (act J a) ≡ 0
  unfolding act
  act_free (go l) = refl
  act_free (count n l) = refl
  act_free leave = refl
  act_free abandon = refl

  act-RunningAt : (a : Action Local) (n : ℕ) → n ≢ 0 → RunningAt (act J a) n
  unfolding act
  act-RunningAt (go l) n h = h
  act-RunningAt (count m l) n h = h
  act-RunningAt leave n h = h
  act-RunningAt abandon n h = h

  act-StoredAt : (a : Action Local) (n : ℕ) → StoredAt (act J a) n
  unfolding act
  act-StoredAt (go l) n = tt
  act-StoredAt (count m l) n = tt
  act-StoredAt leave n = tt
  act-StoredAt abandon n = tt

  pub place-lock :
      (inp : Input) (stop : Bool) (p : Place Local) (t : Slot J) (s : Shared)
      → p ≡ t.place
      → in_lock p + free s ≤ 1
      → has_lock (place_turn J inp stop p t s).0 + free (place_turn J inp stop p t s).1
        ≡ in_lock p + free s
  unfolding place_turn
  place-lock inp stop (at l) t s e h = omega (arith, act_free (J.step t.worker inp stop l))
  place-lock inp stop (lock n l) t s e h = elim (Bool-cases s.locked) [
    | inl b ↦ rw (b, sym e) refl
    | inr b ↦ rw b refl
  ]
  place-lock inp stop (load n l) t s e h = refl
  place-lock inp stop (store n v l) t s e h = refl
  place-lock inp stop (unlock l) t s e h = ground arith
  place-lock inp stop finish t s e h = refl
  place-lock inp stop gone t s e h = rw (sym e) refl
  place-lock inp stop lost t s e h = rw (sym e) refl

  pub place-SlotOk :
      (inp : Input) (stop : Bool) (p : Place Local) (t : Slot J) (s : Shared)
      → p ≡ t.place
      → RunningAt p t.worker.running
      → SlotOk (place_turn J inp stop p t s).0
  unfolding place_turn
  place-SlotOk inp stop (at l) t s e h =
      act-RunningAt (J.step t.worker inp stop l) t.worker.running h
  place-SlotOk inp stop (lock n l) t s e h = elim (Bool-cases s.locked) [
    | inl b ↦ rw (b, sym e) h
    | inr b ↦ rw b h
  ]
  place-SlotOk inp stop (load n l) t s e h = h
  place-SlotOk inp stop (store n v l) t s e h = h
  place-SlotOk inp stop (unlock l) t s e h = h
  place-SlotOk inp stop finish t s e h = refl
  place-SlotOk inp stop gone t s e h = rw (sym e) h
  place-SlotOk inp stop lost t s e h = rw (sym e) h

  pub place-IsStored :
      (inp : Input) (stop : Bool) (p : Place Local) (t : Slot J) (s : Shared)
      → p ≡ t.place
      → StoredAt p s.total
      → IsStored (place_turn J inp stop p t s).1.total (place_turn J inp stop p t s).0
  unfolding place_turn
  place-IsStored inp stop (at l) t s e h = act-StoredAt (J.step t.worker inp stop l) s.total
  place-IsStored inp stop (lock n l) t s e h = elim (Bool-cases s.locked) [
    | inl b ↦ rw (b, sym e) tt
    | inr b ↦ rw b tt
  ]
  place-IsStored inp stop (load n l) t s e h = refl
  place-IsStored inp stop (store n v l) t s e h = tt
  place-IsStored inp stop (unlock l) t s e h = tt
  place-IsStored inp stop finish t s e h = tt
  place-IsStored inp stop gone t s e h = rw (sym e) tt
  place-IsStored inp stop lost t s e h = rw (sym e) tt

  unlocked-StoredAt : (q : Place Local) (a b : ℕ) → in_lock q ≡ 0 → StoredAt q a → StoredAt q b
  unlocked-StoredAt (at l) a b h f = tt
  unlocked-StoredAt (lock n l) a b h f = tt
  unlocked-StoredAt (load n l) a b h f = tt
  unlocked-StoredAt (store n v l) a b h f = absurd (omega arith)
  unlocked-StoredAt (unlock l) a b h f = tt
  unlocked-StoredAt finish a b h f = tt
  unlocked-StoredAt gone a b h f = tt
  unlocked-StoredAt lost a b h f = tt

  -- Only the owner of the mutex writes the total.
  pub place-total :
      (inp : Input) (stop : Bool) (p q : Place Local) (t : Slot J) (s : Shared)
      → in_lock p + in_lock q ≤ 1
      → StoredAt q s.total
      → StoredAt q (place_turn J inp stop p t s).1.total
  unfolding place_turn
  place-total inp stop (at l) q t s h f = f
  place-total inp stop (lock n l) q t s h f = elim (Bool-cases s.locked) [
    | inl b ↦ rw b f
    | inr b ↦ rw b f
  ]
  place-total inp stop (load n l) q t s h f = f
  place-total inp stop (store n v l) q t s h f = unlocked-StoredAt q s.total (v + n) (omega arith) f
  place-total inp stop (unlock l) q t s h f = f
  place-total inp stop finish q t s h f = f
  place-total inp stop gone q t s h f = f
  place-total inp stop lost q t s h f = f
