-- ===== src/Pool/Schedules.antt =====
-- Every schedule of a pool: the total, and the threads that are left when the starting function returns.
use gemtek_sw_training.Prelude.{
  ltb, ◌==◌, ==_iff, Bool-cases, length, update, sum, All-update, All-both, sum-update, All,
  All-map, ℕ, ◌+◌, ◌≤◌, ◌≡◌, refl, ◌∙◌, ◌≢◌, inl, inr, Bool, List, [], ◌∷◌, arith,
}
use gemtek_sw_training.Transfer.{Worker, ServerAt}
use gemtek_sw_training.Pool.{
  Input, Job, Place, at, lock, load, store, unlock, finish, gone, lost, Slot, Main, starting,
  testing, joining, returned, Pool, Turn, main_runs, thread_runs, alarm, turn_at, start_slot,
  main_turn, turn, run, init, idle_slots,
}
use gemtek_sw_training.Pool.Mutex.{in_lock, has_lock, free, RunningAt, SlotOk, StoredAt, IsStored}
use gemtek_sw_training.Pool.Total.{
  owed, owes, gets, turn_gets, counter, turn_at-owes, turn_at-lock, turn_at-SlotOk,
  turn_at-IsStored,
}

-- What holds in every state that a pool reaches; `total` is the counter that it stands for.
pub record Sound (J : Job) (total : ℕ) (p : Pool J) : Type 0 where
  pub mutex : sum (has_lock J) p.slots + free J p.shared ≡ 1
  pub slots_ok : All (SlotOk J) p.slots
  pub stored : All (IsStored J p.shared.total) p.slots
  pub counted : sum (owes J) p.slots + p.shared.total ≡ total

module _ (J : Job) where
  thread_turn-Sound :
      (total k : ℕ) (inp : Input) (p : Pool J)
      → Sound J total p
      → Sound J (total + gets J k inp p.stop p.slots) (record p {
        slots = (turn_at J k inp p.stop p.slots p.shared).0;
        shared = (turn_at J k inp p.stop p.slots p.shared).1;
      })
  thread_turn-Sound total k inp p h = record {
    mutex = turn_at-lock J k inp p.stop p.slots p.shared (omega (arith, h.mutex)) ∙ h.mutex;
    slots_ok = turn_at-SlotOk J k inp p.stop p.slots p.shared h.slots_ok;
    stored = turn_at-IsStored J k inp p.stop p.slots p.shared (omega (arith, h.mutex)) h.stored;
    counted = omega (arith, h.counted, turn_at-owes J k inp p.stop p.slots p.shared h.stored);
  }

  -- Starting a thread where none runs: nobody holds the mutex there, and nothing is owed.
  start_slot-kept :
      (i : ℕ) (server : ServerAt) (t : Slot J)
      → SlotOk J t
      → (has_lock J (start_slot J i server t) ≡ has_lock J t)
        × (owes J (start_slot J i server t) ≡ owes J t)
        × SlotOk J (start_slot J i server t)
        × ((total : ℕ) → IsStored J total t → IsStored J total (start_slot J i server t))
  unfolding start_slot
  start_slot-kept i server t h = elim (Bool-cases (t.worker.running == 0)) [
    | inl e ↦ rw e (idle t.place t.worker.running h ((==_iff t.worker.running 0).0 e))
    | inr e ↦ rw e (refl, refl, h, λ total k. k)
  ]
    where
      idle :
          (q : Place J.Local) (n : ℕ)
          → RunningAt J q n
          → n ≡ 0
          → (0 ≡ in_lock J q)
            × (0 ≡ owed J q)
            × (◌≢◌ {A = ℕ} 1 0)
            × ((total : ℕ) → StoredAt J q total → Unit {0})
      idle gone n r z = (refl, refl, omega arith, λ total k. tt)
      idle lost n r z = absurd (r z)
      idle (at l) n r z = absurd (r z)
      idle (lock m l) n r z = absurd (r z)
      idle (load m l) n r z = absurd (r z)
      idle (store m v l) n r z = absurd (r z)
      idle (unlock l) n r z = absurd (r z)
      idle finish n r z = absurd (r z)

  pub start-Sound :
      (total i : ℕ) (server : ServerAt) (p : Pool J) (m : Main)
      → Sound J total p
      → Sound J total (record p { main = m; slots = update i (start_slot J i server) p.slots })
  start-Sound total i server p m h =
      let locks =
        sum-update (SlotOk J) (has_lock J) i (start_slot J i server) p.slots
          (λ t k. (start_slot-kept i server t k).0) h.slots_ok in
      let debts =
        sum-update (SlotOk J) (owes J) i (start_slot J i server) p.slots
          (λ t k. (start_slot-kept i server t k).1) h.slots_ok in
      record {
        mutex = omega (arith, locks, h.mutex);
        slots_ok =
            All-update (SlotOk J) i (start_slot J i server) p.slots
              (λ t k. (start_slot-kept i server t k).2) h.slots_ok;
        stored =
            All-map (update i (start_slot J i server) p.slots) (λ t k. k.1)
              (All-update (λ (t : Slot J). SlotOk J t × IsStored J p.shared.total t) i
                (start_slot J i server) p.slots
                (λ t k. (
                  (start_slot-kept i server t k.0).2,
                  (start_slot-kept i server t k.0).3 p.shared.total k.1,
                ))
                (All-both (SlotOk J) (IsStored J p.shared.total) p.slots h.slots_ok h.stored));
        counted = omega (arith, debts, h.counted);
      }

  main_turn-Sound :
      (total : ℕ) (joins : Bool) (server : ServerAt) (m : Main) (p : Pool J)
      → Sound J total p
      → Sound J total (main_turn J joins server m p)
  unfolding main_turn
  main_turn-Sound total joins server (starting i) p h = elim (Bool-cases (ltb i (length p.slots))) [
    | inl e ↦ rw e (start-Sound total i server p (starting (i + 1)) h)
    | inr e ↦ rw e (moved testing h)
  ]
    where
      moved : (m : Main) → Sound J total p → Sound J total (record p { main = m })
      moved m h = record {
        mutex = h.mutex;
        slots_ok = h.slots_ok;
        stored = h.stored;
        counted = h.counted;
      }
  main_turn-Sound total joins server testing p h = record {
    mutex = h.mutex;
    slots_ok = h.slots_ok;
    stored = h.stored;
    counted = h.counted;
  }
  main_turn-Sound total joins server (joining i) p h = elim (Bool-cases (ltb i (length p.slots))) [
    | inl e ↦
        rw e (record {
          mutex = h.mutex;
          slots_ok = h.slots_ok;
          stored = h.stored;
          counted = h.counted;
        })
    | inr e ↦
        rw e (record {
          mutex = h.mutex;
          slots_ok = h.slots_ok;
          stored = h.stored;
          counted = h.counted;
        })
  ]
  main_turn-Sound total joins server returned p h = h

  pub turn-Sound :
      (total : ℕ) (joins : Bool) (server : ServerAt) (t : Turn) (p : Pool J)
      → Sound J total p
      → Sound J (total + turn_gets J t p) (turn J joins server t p)
  unfolding turn
  turn-Sound total joins server main_runs p h =
      let r = main_turn-Sound total joins server p.main p h in
      record {
        mutex = r.mutex;
        slots_ok = r.slots_ok;
        stored = r.stored;
        counted = omega (arith, r.counted);
      }
  turn-Sound total joins server (thread_runs k inp) p h = thread_turn-Sound total k inp p h
  turn-Sound total joins server alarm p h = record {
    mutex = h.mutex;
    slots_ok = h.slots_ok;
    stored = h.stored;
    counted = omega (arith, h.counted);
  }

  pub run-Sound :
      (joins : Bool) (server : ServerAt) (turns : List Turn) (total : ℕ) (p : Pool J)
      → Sound J total p
      → Sound J (counter J joins server turns p total) (run J joins server turns p)
  unfolding run counter
  run-Sound joins server [] total p h = h
  run-Sound joins server (t ∷ ts) total p h =
      run-Sound joins server ts (total + turn_gets J t p) (turn J joins server t p)
        (turn-Sound total joins server t p h)

  abbrev pub IsIdle : Worker → Type 0
  IsIdle w = w.running ≡ 0

  idle-Sound :
      (ws : List Worker) (total : ℕ)
      → All IsIdle ws
      → (sum (has_lock J) (idle_slots J ws) ≡ 0)
        × All (SlotOk J) (idle_slots J ws)
        × All (IsStored J total) (idle_slots J ws)
        × (sum (owes J) (idle_slots J ws) ≡ 0)
  unfolding sum
  idle-Sound [] total h = (refl, tt, tt, refl)
  idle-Sound (w ∷ ws) total h =
      let (m, o, s, d) = idle-Sound ws total h.1 in (omega arith, (h.0, o), (tt, s), omega arith)

  pub init-Sound : (ws : List Worker) (total : ℕ) → All IsIdle ws → Sound J total (init J ws total)
  init-Sound ws total h =
      let (m, o, s, d) = idle-Sound ws total h in
      record { mutex = omega arith; slots_ok = o; stored = s; counted = omega arith }

-- The total refines a counter that is added to at once. For every body of the threads, every number of
-- them and every schedule, from idle threads on: the total, with what the threads have got and are
-- about to add, is the value of that counter; at most one thread at a time is between the lock and the
-- unlock of the mutex.
pub total_refines_counter :
    (J : Job) (joins : Bool) (server : ServerAt) (turns : List Turn) (ws : List Worker) (total : ℕ)
    → All (IsIdle J) ws
    → (sum (owes J) (run J joins server turns (init J ws total)).slots
          + (run J joins server turns (init J ws total)).shared.total
        ≡ counter J joins server turns (init J ws total) total)
      × (sum (has_lock J) (run J joins server turns (init J ws total)).slots ≤ 1)
total_refines_counter J joins server turns ws total h = (counted, omega (arith, mutex))
  where
    open (run-Sound J joins server turns total (init J ws total) (init-Sound J ws total h)) use {
      counted, mutex,
    }
