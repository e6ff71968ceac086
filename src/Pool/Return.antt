-- ===== src/Pool/Return.antt =====
-- The starting function can always come to its return.
use gemtek_sw_training.Prelude.{
  ltb, ltb_false→le, le→ltb_false, Bool-cases, length, update, sum, length-update, All, ℕ, zero,
  suc, ◌+◌, ◌≤◌, ◌<◌, ◌≡◌, refl, sym, ap, ◌∙◌, inl, inr, true, List, [], ◌∷◌, ◌++◌, arith,
}
use gemtek_sw_training.Transfer.{Worker, ServerAt}
use mathlib.Core.Path.{subst}
use gemtek_sw_training.Pool.{
  Job, Slot, Main, starting, testing, joining, returned, Pool, Turn, main_runs, thread_runs, alarm,
  start_slot, can_join, main_turn, turn_at, turn, run, init,
}
use gemtek_sw_training.Pool.Total.{counter, turn_at-lock}
use gemtek_sw_training.Pool.Mutex.{has_lock, free}
use gemtek_sw_training.Pool.Schedules.{Sound, start-Sound, run-Sound, init-Sound, IsIdle}
use gemtek_sw_training.Pool.Stopped.{StopOk, run-StopOk}
use gemtek_sw_training.Pool.Drain.{dead, Stops, slot_rank, AllGone, some-Nearer}

module _ (J : Job) (server : ServerAt) where
  pub run-append :
      (first bs : List Turn) (p : Pool J)
      → run J true server (first ++ bs) p ≡ run J true server bs (run J true server first p)
  unfolding run
  run-append [] bs p = refl
  run-append (a ∷ first) bs p = run-append first bs (turn J true server a p)

  -- Some schedule leads from `p` to the return of the function.
  abbrev CanReturn : Pool J → Type 0
  CanReturn p = (turns : List Turn) × ((run J true server turns p).main ≡ returned)

  CanReturn-before :
      (first : List Turn) (p : Pool J) → CanReturn (run J true server first p) → CanReturn p
  CanReturn-before first p (bs, e) =
      (first ++ bs, ap (λ (q : Pool J). q.main) (run-append first bs p) ∙ e)

  CanReturn-turn : (t : Turn) (p : Pool J) → CanReturn (turn J true server t p) → CanReturn p
  unfolding run
  CanReturn-turn t p (bs, e) = (t ∷ bs, e)

  gone-can_join : (k : ℕ) (ts : List (Slot J)) → AllGone J ts → can_join J k ts ≡ true
  unfolding can_join
  gone-can_join k [] h = refl
  gone-can_join zero (t ∷ ts) h = h.0
  gone-can_join (suc k) (t ∷ ts) h = gone-can_join k ts h.1

  turn_main :
      (p : Pool J) (m : Main)
      → p.main ≡ m
      → turn J true server main_runs p ≡ main_turn J true server m p
  unfolding turn
  turn_main p m e = ap (λ n. main_turn J true server n p) e

  -- The starting function moves: what then can return can return before.
  CanReturn-main :
      (p q : Pool J) (m : Main)
      → p.main ≡ m
      → main_turn J true server m p ≡ q
      → CanReturn q
      → CanReturn p
  CanReturn-main p q m e step h =
      CanReturn-turn main_runs p (subst CanReturn (sym (turn_main p m e ∙ step)) h)

  CanReturn-returned : (p : Pool J) → p.main ≡ returned → CanReturn p
  unfolding run
  CanReturn-returned p e = ([], e)

  joined : (i : ℕ) (p : Pool J) → length p.slots ≤ i → p.main ≡ joining i → CanReturn p
  unfolding main_turn
  joined i p b e =
      CanReturn-main p (record p { main = returned }) (joining i) e
        (rw (le→ltb_false i (length p.slots) b) refl)
        (CanReturn-returned (record p { main = returned }) refl)

  -- Where every thread has ended, the joins return one behind the other.
  joins-CanReturn :
      (n i : ℕ) (p : Pool J)
      → length p.slots ≤ i + n
      → AllGone J p.slots
      → p.main ≡ joining i
      → CanReturn p
  unfolding main_turn
  joins-CanReturn zero i p b h e = joined i p (omega arith) e
  joins-CanReturn (suc n) i p b h e =
      let rest =
        joins-CanReturn n (i + 1) (record p { main = joining (i + 1) }) (omega arith) h refl in
      elim (Bool-cases (ltb i (length p.slots))) [
        | inr f ↦ joined i p (ltb_false→le i (length p.slots) f) e
        | inl f ↦
            CanReturn-main p (record p { main = joining (i + 1) }) (joining i) e
              (rw (f, gone-can_join i p.slots h) refl) rest
      ]

  -- The threads that run on come to their ends, one turn at a time, and then the joins return.
  module _ (S : Stops J) where
    drains-CanReturn :
        (n i : ℕ) (p : Pool J)
        → sum (slot_rank J S) p.slots ≤ n
        → sum (has_lock J) p.slots + free J p.shared ≡ 1
        → p.stop ≡ true
        → p.main ≡ joining i
        → CanReturn p
    unfolding turn
    drains-CanReturn zero i p b h e m = elim (some-Nearer J S p.slots p.shared h) [
      | inl g ↦ joins-CanReturn (length p.slots) i p (omega arith) g m
      | inr (k, near) ↦ absurd (omega arith)
    ]
    drains-CanReturn (suc n) i p b h e m = elim (some-Nearer J S p.slots p.shared h) [
      | inl g ↦ joins-CanReturn (length p.slots) i p (omega arith) g m
      | inr (k, near) ↦
          let near' : sum (slot_rank J S) (turn_at J k dead p.stop p.slots p.shared).0
              < sum (slot_rank J S) p.slots =
            rw e near in
          CanReturn-turn (thread_runs k dead) p (
            drains-CanReturn n i (turn J true server (thread_runs k dead) p) (omega arith)
              (turn_at-lock J k dead p.stop p.slots p.shared (omega arith) ∙ h) e m)
    ]

    joining-CanReturn :
        (i : ℕ) (p : Pool J)
        → sum (has_lock J) p.slots + free J p.shared ≡ 1
        → p.stop ≡ true
        → p.main ≡ joining i
        → CanReturn p
    joining-CanReturn i p h e m =
        drains-CanReturn (sum (slot_rank J S) p.slots) i p (omega arith) h e m

    -- The timer goes off, and the test of `thread_all_stop` is next.
    testing-CanReturn :
        (p : Pool J)
        → sum (has_lock J) p.slots + free J p.shared ≡ 1
        → p.main ≡ testing
        → CanReturn p
    unfolding turn main_turn
    testing-CanReturn p h m = CanReturn-turn alarm p (
        CanReturn-main (record p { stop = true }) (record p { stop = true; main = joining 0 })
          testing m refl
          (joining-CanReturn 0 (record p { stop = true; main = joining 0 }) h refl refl))

    all_started :
        (i : ℕ) (p : Pool J)
        → length p.slots ≤ i
        → sum (has_lock J) p.slots + free J p.shared ≡ 1
        → p.main ≡ starting i
        → CanReturn p
    unfolding main_turn
    all_started i p b h m =
        CanReturn-main p (record p { main = testing }) (starting i) m
          (rw (le→ltb_false i (length p.slots) b) refl)
          (testing-CanReturn (record p { main = testing }) h refl)

    -- The rest of a round of the loop that starts the threads.
    starting-CanReturn :
        (n i total : ℕ) (p : Pool J)
        → length p.slots ≤ i + n
        → Sound J total p
        → p.main ≡ starting i
        → CanReturn p
    unfolding main_turn
    starting-CanReturn zero i total p b h m = all_started i p (omega arith) h.mutex m
    starting-CanReturn (suc n) i total p b h m =
        let q : Pool J = record p {
          main = starting (i + 1);
          slots = update i (start_slot J i server) p.slots;
        } in
        let rest =
          starting-CanReturn n (i + 1) total q
            (omega (arith, length-update i (start_slot J i server) p.slots))
            (start-Sound J total i server p (starting (i + 1)) h) refl in
        elim (Bool-cases (ltb i (length p.slots))) [
          | inr f ↦ all_started i p (ltb_false→le i (length p.slots) f) h.mutex m
          | inl f ↦ CanReturn-main p q (starting i) m (rw f refl) rest
        ]

    Sound-CanReturn :
        (total : ℕ) (m : Main) (p : Pool J)
        → Sound J total p
        → StopOk J server m p.stop
        → p.main ≡ m
        → CanReturn p
    Sound-CanReturn total (starting i) p h k e =
        starting-CanReturn (length p.slots) i total p (omega arith) h e
    Sound-CanReturn total testing p h k e = testing-CanReturn p h.mutex e
    Sound-CanReturn total (joining i) p h k e = joining-CanReturn i p h.mutex k e
    Sound-CanReturn total returned p h k e = CanReturn-returned p e

-- After every schedule, from idle threads on, the function that starts the threads and joins them can
-- still come to its return, by a schedule that goes on from there: neither the mutex nor a join blocks
-- it for ever. The bodies are such that a thread whose calls fail ends once `thread_all_stop` is set.
pub can_return :
    (J : Job) (server : ServerAt) (turns : List Turn) (ws : List Worker) (total : ℕ)
    → Stops J
    → All (IsIdle J) ws
    → (more : List Turn) × ((run J true server (turns ++ more) (init J ws total)).main ≡ returned)
can_return J server turns ws total S h = (
  rest.0,
  ap (λ (q : Pool J). q.main) (run-append J server turns rest.0 (init J ws total)) ∙ rest.1,
)
  where
    p : Pool J
    p = run J true server turns (init J ws total)

    rest : (more : List Turn) × ((run J true server more p).main ≡ returned)
    rest =
        Sound-CanReturn J server S (counter J true server turns (init J ws total) total) p.main p
          (run-Sound J true server turns total (init J ws total) (init-Sound J ws total h))
          (run-StopOk J server turns (init J ws total) tt) refl
