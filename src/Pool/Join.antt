-- ===== src/Pool/Join.antt =====
-- When the starting function returns, its threads have ended.
use gemtek_sw_training.Prelude.{
  ltb, ltb_false→le, Bool-cases, length, sum_zero, All, All-map, ℕ, zero, suc, ◌+◌, ◌≤◌, ◌≡◌, refl,
  sym, ap, inl, inr, Bool, true, List, [], ◌∷◌, arith,
}
use gemtek_sw_training.Transfer.{Worker, ServerAt}
use gemtek_sw_training.Pool.{
  Input, Job, Place, at, lock, load, store, unlock, finish, gone, lost, Slot, Shared, Main,
  starting, testing, joining, returned, Pool, Turn, main_runs, thread_runs, alarm, place_turn,
  thread_turn, turn_at, has_gone, can_join, main_turn, turn, run, init,
}
use mathlib.Core.Path.{subst}
use gemtek_sw_training.Pool.Mutex.{SlotOk}
use gemtek_sw_training.Pool.Total.{owed, owes, counter}
use gemtek_sw_training.Pool.Schedules.{Sound, run-Sound, init-Sound, IsIdle}

module _ (J : Job) where
  open J use {Local}

  -- The first `i` threads have ended.
  unfoldable pub GoneBelow : ℕ → List (Slot J) → Type 0
  GoneBelow zero ts = Unit {0}
  GoneBelow (suc i) [] = Unit {0}
  GoneBelow (suc i) (t ∷ ts) = (has_gone J t.place ≡ true) × GoneBelow i ts

  -- What the place of the starting function says of the threads.
  abbrev Joined : Main → List (Slot J) → Type 0
  Joined (starting i) ts = Unit {0}
  Joined testing ts = Unit {0}
  Joined (joining i) ts = GoneBelow i ts
  Joined returned ts = GoneBelow (length ts) ts

  one_more_suc :
      (i : ℕ) (ts : List (Slot J)) → GoneBelow i ts → can_join J i ts ≡ true → GoneBelow (suc i) ts
  unfolding GoneBelow can_join
  one_more_suc i [] h e = tt
  one_more_suc zero (t ∷ ts) h e = (e, tt)
  one_more_suc (suc i) (t ∷ ts) h e = (h.0, one_more_suc i ts h.1 e)

  one_more :
      (i : ℕ) (ts : List (Slot J)) → GoneBelow i ts → can_join J i ts ≡ true → GoneBelow (i + 1) ts
  one_more i ts h e = subst (λ n. GoneBelow n ts) (omega arith) (one_more_suc i ts h e)

  all_below :
      (i : ℕ) (ts : List (Slot J)) → length ts ≤ i → GoneBelow i ts → GoneBelow (length ts) ts
  unfolding GoneBelow
  all_below i [] h g = tt
  all_below zero (t ∷ ts) h g = absurd (omega arith)
  all_below (suc i) (t ∷ ts) h g = (g.0, all_below i ts (omega arith) g.1)

  place_gone :
      (inp : Input) (stop : Bool) (p : Place Local) (t : Slot J) (s : Shared)
      → p ≡ t.place
      → has_gone J p ≡ true
      → has_gone J (place_turn J inp stop p t s).0.place ≡ true
  unfolding place_turn
  place_gone inp stop gone t s e h = rw (sym e) refl
  place_gone inp stop lost t s e h = rw (sym e) refl
  place_gone inp stop (at l) t s e h = absurd cc
  place_gone inp stop (lock n l) t s e h = absurd cc
  place_gone inp stop (load n l) t s e h = absurd cc
  place_gone inp stop (store n v l) t s e h = absurd cc
  place_gone inp stop (unlock l) t s e h = absurd cc
  place_gone inp stop finish t s e h = absurd cc

  turn_at-GoneBelow :
      (i k : ℕ) (inp : Input) (stop : Bool) (ts : List (Slot J)) (s : Shared)
      → GoneBelow i ts
      → GoneBelow i (turn_at J k inp stop ts s).0
  unfolding turn_at thread_turn GoneBelow
  turn_at-GoneBelow zero k inp stop ts s h = tt
  turn_at-GoneBelow (suc i) k inp stop [] s h = tt
  turn_at-GoneBelow (suc i) zero inp stop (t ∷ ts) s h =
      (place_gone inp stop t.place t s refl h.0, h.1)
  turn_at-GoneBelow (suc i) (suc k) inp stop (t ∷ ts) s h =
      (h.0, turn_at-GoneBelow i k inp stop ts s h.1)

  length-turn_at :
      (k : ℕ) (inp : Input) (stop : Bool) (ts : List (Slot J)) (s : Shared)
      → length (turn_at J k inp stop ts s).0 ≡ length ts
  unfolding turn_at
  length-turn_at k inp stop [] s = refl
  length-turn_at zero inp stop (t ∷ ts) s = refl
  length-turn_at (suc k) inp stop (t ∷ ts) s = ap suc (length-turn_at k inp stop ts s)

  thread-Joined :
      (m : Main) (k : ℕ) (inp : Input) (stop : Bool) (ts : List (Slot J)) (s : Shared)
      → Joined m ts
      → Joined m (turn_at J k inp stop ts s).0
  thread-Joined (starting i) k inp stop ts s h = tt
  thread-Joined testing k inp stop ts s h = tt
  thread-Joined (joining i) k inp stop ts s h = turn_at-GoneBelow i k inp stop ts s h
  thread-Joined returned k inp stop ts s h =
      rw (length-turn_at k inp stop ts s) (turn_at-GoneBelow (length ts) k inp stop ts s h)

  main-Joined :
      (server : ServerAt) (m : Main) (p : Pool J)
      → m ≡ p.main
      → Joined m p.slots
      → Joined (main_turn J true server m p).main (main_turn J true server m p).slots
  unfolding main_turn
  main-Joined server (starting i) p e h = elim (Bool-cases (ltb i (length p.slots))) [
    | inl b ↦ rw b tt
    | inr b ↦ rw b tt
  ]
  main-Joined server testing p e h = elim (Bool-cases p.stop) [
    | inl b ↦ rw b (unfold GoneBelow in tt)
    | inr b ↦ rw b tt
  ]
  main-Joined server (joining i) p e h = elim (Bool-cases (ltb i (length p.slots))) [
    | inl b ↦ elim (Bool-cases (can_join J i p.slots)) [
      | inl c ↦ rw (b, c) (one_more i p.slots h c)
      | inr c ↦ rw (b, c) h
    ]
    | inr b ↦ rw b (all_below i p.slots (ltb_false→le i (length p.slots) b) h)
  ]
  main-Joined server returned p e h = rw (sym e) h

  turn-Joined :
      (server : ServerAt) (t : Turn) (p : Pool J)
      → Joined p.main p.slots
      → Joined (turn J true server t p).main (turn J true server t p).slots
  unfolding turn
  turn-Joined server main_runs p h = main-Joined server p.main p refl h
  turn-Joined server (thread_runs k inp) p h = thread-Joined p.main k inp p.stop p.slots p.shared h
  turn-Joined server alarm p h = h

  run-Joined :
      (server : ServerAt) (turns : List Turn) (p : Pool J)
      → Joined p.main p.slots
      → Joined (run J true server turns p).main (run J true server turns p).slots
  unfolding run
  run-Joined server [] p h = h
  run-Joined server (t ∷ ts) p h =
      run-Joined server ts (turn J true server t p) (turn-Joined server t p h)

  -- A slot whose thread has ended: nothing is owed, and `running` is 0 unless the thread left it as it
  -- was.
  pub record HasEnded (t : Slot J) : Type 0 where
    pub ended : has_gone J t.place ≡ true
    pub marked : SlotOk J t
    pub settled : owes J t ≡ 0

  gone-HasEnded : (t : Slot J) → SlotOk J t → has_gone J t.place ≡ true → HasEnded t
  gone-HasEnded t h e = record { ended = e; marked = h; settled = by_place_owed t.place e }
    where
      by_place_owed : (q : Place Local) → has_gone J q ≡ true → owed J q ≡ 0
      by_place_owed q e = ground arith

  gone-All : (ts : List (Slot J)) → GoneBelow (length ts) ts → All (SlotOk J) ts → All HasEnded ts
  unfolding GoneBelow
  gone-All [] g h = tt
  gone-All (t ∷ ts) g h = (gone-HasEnded t h.0 g.0, gone-All ts g.1 h.1)

-- When a starting function that joins its threads has returned, in any schedule, from idle threads on:
-- every thread has ended, with `running` at 0 unless its body left it as it was, and the total has been
-- given every byte that the threads got.
pub returned_all_ended :
    (J : Job) (server : ServerAt) (turns : List Turn) (ws : List Worker) (total : ℕ)
    → All (IsIdle J) ws
    → (run J true server turns (init J ws total)).main ≡ returned
    → All (HasEnded J) (run J true server turns (init J ws total)).slots
      × ((run J true server turns (init J ws total)).shared.total
          ≡ counter J true server turns (init J ws total) total)
returned_all_ended J server turns ws total h e = (
  ended,
  omega (arith, sound.counted, sum_zero (owes J) slots (All-map slots (λ t k. k.settled) ended)),
)
  where
    slots : List (Slot J)
    slots = (run J true server turns (init J ws total)).slots

    sound :
        Sound J
          (counter J true server turns (init J ws total) total)
          (run J true server turns (init J ws total))
    sound = run-Sound J true server turns total (init J ws total) (init-Sound J ws total h)

    joined : Joined J returned slots
    joined = subst (λ m. Joined J m slots) e (run-Joined J server turns (init J ws total) tt)

    ended : All (HasEnded J) slots
    ended = gone-All J slots joined sound.slots_ok
