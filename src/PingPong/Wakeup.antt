-- ===== src/PingPong/Wakeup.antt =====
-- A signal that arrives between the test of the flag and `pause` is lost.
use gemtek_sw_training.Prelude.{ℕ, ◌≡◌, refl, ap, ◌∙◌, true, false, List, [], ◌∷◌, arith}
use gemtek_sw_training.PingPong.{
  pause, asleep, System, Turn, parent_runs, child_runs, parent_signal, child_signal, turn, run,
  parent_turn, child_turn, signal_handler,
}

-- Both processes sleep, and no signal is on its way.
pub record IsStuck (s : System) : Type 0 where
  pub parent_sleeps : s.parent.pc ≡ asleep
  pub child_sleeps : s.child.pc ≡ asleep
  pub parent_uncalled : s.parent.pending ≡ false
  pub child_uncalled : s.child.pending ≡ false

-- The parent has found its flag down and is about to sleep, and the signal of the child is pending.
pub record IsLate (s : System) : Type 0 where
  pub parent_pauses : s.parent.pc ≡ pause
  pub parent_called : s.parent.pending ≡ true
  pub child_sleeps : s.child.pc ≡ asleep
  pub child_uncalled : s.child.pending ≡ false

module _ (parent_pid child_pid : ℕ) where
  turn-IsStuck : (t : Turn) (s : System) → IsStuck s → turn parent_pid child_pid t s ≡ s
  unfolding turn parent_turn child_turn signal_handler
  turn-IsStuck parent_runs s h = rw (h.parent_sleeps, parent_turn) refl
  turn-IsStuck child_runs s h = rw (h.child_sleeps, child_turn) refl
  turn-IsStuck parent_signal s h = rw (h.parent_uncalled) refl
  turn-IsStuck child_signal s h = rw (h.child_uncalled) refl

  run-IsStuck : (ts : List Turn) (s : System) → IsStuck s → run parent_pid child_pid ts s ≡ s
  unfolding run
  run-IsStuck [] s h = refl
  run-IsStuck (t ∷ ts) s h = rw (turn-IsStuck t s h) (run-IsStuck ts s h)

  late : System → System
  late s = turn parent_pid child_pid parent_runs (turn parent_pid child_pid parent_signal s)

  late-IsStuck : (s : System) → IsLate s → IsStuck (late s)
  unfolding late turn parent_turn signal_handler
  late-IsStuck s h = ground arith

  late_flag : (s : System) → IsLate s → (late s).parent.received_sig ≡ true
  unfolding late turn parent_turn signal_handler
  late_flag s h = ground arith

-- When the signal of the child is delivered to the parent after it has found its flag down and before
-- it sleeps, and the child sleeps, then the parent sleeps with its flag up, and from there on no turn
-- and no signal changes anything.
pub signal_lost :
    (parent_pid child_pid : ℕ) (s : System) (ts : List Turn)
    → IsLate s
    → (run parent_pid child_pid (parent_signal ∷ parent_runs ∷ ts) s
        ≡ run parent_pid child_pid (parent_signal ∷ parent_runs ∷ []) s)
      × ((run parent_pid child_pid (parent_signal ∷ parent_runs ∷ ts) s).parent.received_sig ≡ true)
unfolding run late
signal_lost parent_pid child_pid s ts h =
    (still, ap (λ (u : System). u.parent.received_sig) still ∙ flag)
  where
    still : run parent_pid child_pid ts (late parent_pid child_pid s) ≡ late parent_pid child_pid s
    still = run-IsStuck parent_pid child_pid ts _ (late-IsStuck parent_pid child_pid s h)

    flag : (late parent_pid child_pid s).parent.received_sig ≡ true
    flag = late_flag parent_pid child_pid s h
