-- ===== src/Pool/Total.antt =====
-- One turn of a thread of a pool: the total, and what is still to be added to it.
use gemtek_sw_training.Prelude.{
  Bool-cases, sum, All, ℕ, zero, suc, ◌+◌, ◌≤◌, ◌≡◌, refl, sym, inl, inr, Bool, List, [], ◌∷◌,
  arith,
}
use gemtek_sw_training.Transfer.{ServerAt}
use gemtek_sw_training.Pool.{
  Input, Action, go, count, leave, abandon, Job, Place, at, lock, load, store, unlock, finish, gone,
  lost, Slot, Shared, Pool, Turn, thread_runs, act, place_turn, thread_turn, turn_at, turn,
}
use gemtek_sw_training.Pool.Mutex.{
  has_lock, free, SlotOk, StoredAt, IsStored, place-lock, place-SlotOk, place-IsStored, place-total,
}

module _ (J : Job) where
  open J use {Local}

  -- The bytes that a thread has got and not yet added to the total.
  abbrev pub owed : Place Local → ℕ
  owed (lock n l) = n
  owed (load n l) = n
  owed (store n v l) = n
  owed p = 0

  abbrev pub owes : Slot J → ℕ
  owes t = owed t.place

  abbrev added : Action Local → ℕ
  added (count n l) = n
  added a = 0

  abbrev gets_at : Input → Bool → Place Local → Slot J → ℕ
  gets_at inp stop (at l) t = added (J.step t.worker inp stop l)
  gets_at inp stop p t = 0

  -- The bytes that the next turn brings.
  unfoldable pub gets : ℕ → Input → Bool → List (Slot J) → ℕ
  gets k inp stop [] = 0
  gets zero inp stop (t ∷ ts) = gets_at inp stop t.place t
  gets (suc k) inp stop (t ∷ ts) = gets k inp stop ts

  abbrev pub turn_gets : Turn → Pool J → ℕ
  turn_gets (thread_runs k inp) p = gets k inp p.stop p.slots
  turn_gets t p = 0

  -- The counter that a pool stands for: it is added to at once, when a thread gets its bytes.
  unfoldable pub counter : Bool → ServerAt → List Turn → Pool J → ℕ → ℕ
  counter joins server [] p total = total
  counter joins server (t ∷ ts) p total =
      counter joins server ts (turn J joins server t p) (total + turn_gets t p)

  act-owed : (a : Action Local) → owed (act J a) ≡ added a
  unfolding act
  act-owed (go l) = refl
  act-owed (count n l) = refl
  act-owed leave = refl
  act-owed abandon = refl

  place-owed :
      (inp : Input) (stop : Bool) (p : Place Local) (t : Slot J) (s : Shared)
      → p ≡ t.place
      → StoredAt J p s.total
      → owes (place_turn J inp stop p t s).0 + (place_turn J inp stop p t s).1.total
        ≡ owed p + s.total + gets_at inp stop p t
  unfolding place_turn
  place-owed inp stop (at l) t s e h = omega (arith, act-owed (J.step t.worker inp stop l))
  place-owed inp stop (lock n l) t s e h = elim (Bool-cases s.locked) [
    | inl b ↦ rw (b, sym e) (omega arith)
    | inr b ↦ rw b (omega arith)
  ]
  place-owed inp stop (load n l) t s e h = omega arith
  place-owed inp stop (store n v l) t s e h = omega (arith, h)
  place-owed inp stop (unlock l) t s e h = omega arith
  place-owed inp stop finish t s e h = omega arith
  place-owed inp stop gone t s e h = rw (sym e) (omega arith)
  place-owed inp stop lost t s e h = rw (sym e) (omega arith)

  pub turn_at-owes :
      (k : ℕ) (inp : Input) (stop : Bool) (ts : List (Slot J)) (s : Shared)
      → All (IsStored J s.total) ts
      → sum owes (turn_at J k inp stop ts s).0 + (turn_at J k inp stop ts s).1.total
        ≡ sum owes ts + s.total + gets k inp stop ts
  unfolding turn_at thread_turn gets sum
  turn_at-owes k inp stop [] s h = omega arith
  turn_at-owes zero inp stop (t ∷ ts) s h = omega (arith, place-owed inp stop t.place t s refl h.0)
  turn_at-owes (suc k) inp stop (t ∷ ts) s h = omega (arith, turn_at-owes k inp stop ts s h.1)

  pub turn_at-lock :
      (k : ℕ) (inp : Input) (stop : Bool) (ts : List (Slot J)) (s : Shared)
      → sum (has_lock J) ts + free J s ≤ 1
      → sum (has_lock J) (turn_at J k inp stop ts s).0 + free J (turn_at J k inp stop ts s).1
        ≡ sum (has_lock J) ts + free J s
  unfolding turn_at thread_turn sum
  turn_at-lock k inp stop [] s h = refl
  turn_at-lock zero inp stop (t ∷ ts) s h =
      omega (arith, place-lock J inp stop t.place t s refl (omega arith))
  turn_at-lock (suc k) inp stop (t ∷ ts) s h =
      omega (arith, turn_at-lock k inp stop ts s (omega arith))

  pub turn_at-SlotOk :
      (k : ℕ) (inp : Input) (stop : Bool) (ts : List (Slot J)) (s : Shared)
      → All (SlotOk J) ts
      → All (SlotOk J) (turn_at J k inp stop ts s).0
  unfolding turn_at thread_turn
  turn_at-SlotOk k inp stop [] s h = tt
  turn_at-SlotOk zero inp stop (t ∷ ts) s h = (place-SlotOk J inp stop t.place t s refl h.0, h.1)
  turn_at-SlotOk (suc k) inp stop (t ∷ ts) s h = (h.0, turn_at-SlotOk k inp stop ts s h.1)

  others-IsStored :
      (inp : Input) (stop : Bool) (t : Slot J) (us : List (Slot J)) (s : Shared)
      → has_lock J t + sum (has_lock J) us ≤ 1
      → All (IsStored J s.total) us
      → All (IsStored J (place_turn J inp stop t.place t s).1.total) us
  unfolding sum
  others-IsStored inp stop t [] s b h = tt
  others-IsStored inp stop t (u ∷ us) s b h = (
    place-total J inp stop t.place u.place t s (omega arith) h.0,
    others-IsStored inp stop t us s (omega arith) h.1,
  )

  -- A thread beside those of which one moves.
  spectator-IsStored :
      (k : ℕ) (inp : Input) (stop : Bool) (u : Slot J) (ts : List (Slot J)) (s : Shared)
      → has_lock J u + sum (has_lock J) ts ≤ 1
      → IsStored J s.total u
      → IsStored J (turn_at J k inp stop ts s).1.total u
  unfolding turn_at thread_turn sum
  spectator-IsStored k inp stop u [] s b h = h
  spectator-IsStored zero inp stop u (t ∷ ts) s b h =
      place-total J inp stop t.place u.place t s (omega arith) h
  spectator-IsStored (suc k) inp stop u (t ∷ ts) s b h =
      spectator-IsStored k inp stop u ts s (omega arith) h

  pub turn_at-IsStored :
      (k : ℕ) (inp : Input) (stop : Bool) (ts : List (Slot J)) (s : Shared)
      → sum (has_lock J) ts ≤ 1
      → All (IsStored J s.total) ts
      → All (IsStored J (turn_at J k inp stop ts s).1.total) (turn_at J k inp stop ts s).0
  unfolding turn_at thread_turn sum
  turn_at-IsStored k inp stop [] s b h = tt
  turn_at-IsStored zero inp stop (t ∷ ts) s b h =
      (place-IsStored J inp stop t.place t s refl h.0, others-IsStored inp stop t ts s b h.1)
  turn_at-IsStored (suc k) inp stop (t ∷ ts) s b h = (
    spectator-IsStored k inp stop t ts s b h.0,
    turn_at-IsStored k inp stop ts s (omega arith) h.1,
  )
