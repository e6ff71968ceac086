-- ===== src/Pool/Tidy.antt =====
-- Bodies that reset `running` wherever they end.
use gemtek_sw_training.Prelude.{
  ltb, ◌==◌, if◌then◌else◌, Bool-cases, length, All-update, All-both, All, All-map, ℕ, zero, suc,
  ◌≡◌, refl, sym, inl, inr, Bool, true, false, List, [], ◌∷◌, arith,
}
use gemtek_sw_training.Http.{Received, failed, closed, chunk}
use gemtek_sw_training.Transfer.{Worker, ServerAt}
use gemtek_sw_training.Pool.{
  Input, Action, go, count, leave, abandon, Job, Place, at, lock, load, store, unlock, finish, gone,
  lost, Slot, Shared, Main, starting, testing, joining, returned, Pool, Turn, main_runs,
  thread_runs, alarm, act, place_turn, thread_turn, start_slot, main_turn, turn_at, turn, run, init,
  idle_slots, has_gone,
}
use gemtek_sw_training.Pool.Mutex.{RunningAt}
use gemtek_sw_training.Pool.Join.{HasEnded}
use gemtek_sw_training.Pool.Jobs.{
  connecting, requesting, receiving, check_stop, after_recv, received, download_step, download_job,
}

-- The action is not to return at once.
abbrev pub IsKept : {L : Type 0} → Action L → Type 0
IsKept (go l) = Unit {0}
IsKept (count n l) = Unit {0}
IsKept leave = Unit {0}
IsKept abandon = ⊥

abbrev pub IsTidy : Job → Type 0
IsTidy J = (w : Worker) (inp : Input) (stop : Bool) (l : J.Local) → IsKept (J.step w inp stop l)

module _ (J : Job) (tidy : IsTidy J) where
  open J use {Local}

  abbrev KeptAt : Place Local → Type 0
  KeptAt lost = ⊥
  KeptAt p = Unit {0}

  abbrev IsKeptSlot : Slot J → Type 0
  IsKeptSlot t = KeptAt t.place

  act-KeptAt : (a : Action Local) → IsKept a → KeptAt (act J a)
  unfolding act
  act-KeptAt (go l) h = tt
  act-KeptAt (count n l) h = tt
  act-KeptAt leave h = tt
  act-KeptAt abandon h = h

  place-KeptAt :
      (inp : Input) (stop : Bool) (p : Place Local) (t : Slot J) (s : Shared)
      → p ≡ t.place
      → KeptAt p
      → KeptAt (place_turn J inp stop p t s).0.place
  unfolding place_turn
  place-KeptAt inp stop (at l) t s e h =
      act-KeptAt (J.step t.worker inp stop l) (tidy t.worker inp stop l)
  place-KeptAt inp stop (lock n l) t s e h = elim (Bool-cases s.locked) [
    | inl b ↦ rw (b, sym e) tt
    | inr b ↦ rw b tt
  ]
  place-KeptAt inp stop (load n l) t s e h = tt
  place-KeptAt inp stop (store n v l) t s e h = tt
  place-KeptAt inp stop (unlock l) t s e h = tt
  place-KeptAt inp stop finish t s e h = tt
  place-KeptAt inp stop gone t s e h = rw (sym e) tt
  place-KeptAt inp stop lost t s e h = absurd h

  turn_at-KeptAt :
      (k : ℕ) (inp : Input) (stop : Bool) (ts : List (Slot J)) (s : Shared)
      → All IsKeptSlot ts
      → All IsKeptSlot (turn_at J k inp stop ts s).0
  unfolding turn_at thread_turn
  turn_at-KeptAt k inp stop [] s h = tt
  turn_at-KeptAt zero inp stop (t ∷ ts) s h = (place-KeptAt inp stop t.place t s refl h.0, h.1)
  turn_at-KeptAt (suc k) inp stop (t ∷ ts) s h = (h.0, turn_at-KeptAt k inp stop ts s h.1)

  start-KeptAt :
      (i : ℕ) (server : ServerAt) (t : Slot J) → IsKeptSlot t → IsKeptSlot (start_slot J i server t)
  unfolding start_slot
  start-KeptAt i server t h = elim (Bool-cases (t.worker.running == 0)) [
    | inl e ↦ rw e tt
    | inr e ↦ rw e h
  ]

  main-KeptAt :
      (joins : Bool) (server : ServerAt) (m : Main) (p : Pool J)
      → All IsKeptSlot p.slots
      → All IsKeptSlot (main_turn J joins server m p).slots
  unfolding main_turn
  main-KeptAt joins server (starting i) p h = elim (Bool-cases (ltb i (length p.slots))) [
    | inl e ↦
        rw e (All-update IsKeptSlot i (start_slot J i server) p.slots (start-KeptAt i server) h)
    | inr e ↦ rw e h
  ]
  main-KeptAt joins server testing p h = h
  main-KeptAt joins server (joining i) p h = elim (Bool-cases (ltb i (length p.slots))) [
    | inl e ↦ rw e h
    | inr e ↦ rw e h
  ]
  main-KeptAt joins server returned p h = h

  turn-KeptAt :
      (joins : Bool) (server : ServerAt) (t : Turn) (p : Pool J)
      → All IsKeptSlot p.slots
      → All IsKeptSlot (turn J joins server t p).slots
  unfolding turn
  turn-KeptAt joins server main_runs p h = main-KeptAt joins server p.main p h
  turn-KeptAt joins server (thread_runs k inp) p h = turn_at-KeptAt k inp p.stop p.slots p.shared h
  turn-KeptAt joins server alarm p h = h

  run-KeptAt :
      (joins : Bool) (server : ServerAt) (turns : List Turn) (p : Pool J)
      → All IsKeptSlot p.slots
      → All IsKeptSlot (run J joins server turns p).slots
  unfolding run
  run-KeptAt joins server [] p h = h
  run-KeptAt joins server (t ∷ turns) p h =
      run-KeptAt joins server turns (turn J joins server t p) (turn-KeptAt joins server t p h)

  idle-KeptAt : (ws : List Worker) → All IsKeptSlot (idle_slots J ws)
  idle-KeptAt [] = tt
  idle-KeptAt (w ∷ ws) = (tt, idle-KeptAt ws)

  -- Where a tidy body has ended, `running` is 0.
  ended-idle : (p : Place Local) (n : ℕ) → KeptAt p → RunningAt J p n → has_gone J p ≡ true → n ≡ 0
  ended-idle p n k r h = ground arith

  pub all_idle :
      (joins : Bool) (server : ServerAt) (turns : List Turn) (ws : List Worker) (total : ℕ)
      → All (HasEnded J) (run J joins server turns (init J ws total)).slots
      → All
          (λ (t : Slot J). t.worker.running ≡ 0)
          (run J joins server turns (init J ws total)).slots
  all_idle joins server turns ws total h =
      All-map (run J joins server turns (init J ws total)).slots
        (λ t k. ended-idle t.place t.worker.running k.1 k.0.marked k.0.ended)
        (All-both (HasEnded J) IsKeptSlot (run J joins server turns (init J ws total)).slots h
          (run-KeptAt joins server turns (init J ws total) (idle-KeptAt ws)))

if-IsKept :
    {L : Type 0} (b : Bool) (x y : Action L) → IsKept x → IsKept y → IsKept (if b then x else y)
if-IsKept true x y h k = h
if-IsKept false x y h k = k

after_recv-IsKept : (r : Received) → IsKept (after_recv r)
after_recv-IsKept failed = tt
after_recv-IsKept closed = tt
after_recv-IsKept (chunk rbuf) = tt

pub download_job-IsTidy : IsTidy download_job
unfolding download_step received
download_job-IsTidy w inp stop connecting = if-IsKept _ (go requesting) leave tt tt
download_job-IsTidy w inp stop requesting = if-IsKept _ leave (go receiving) tt tt
download_job-IsTidy w inp stop receiving =
    if-IsKept inp.round.selected (after_recv inp.round.received) (go receiving)
      (after_recv-IsKept inp.round.received) tt
download_job-IsTidy w inp stop check_stop = if-IsKept stop leave (go receiving) tt tt
