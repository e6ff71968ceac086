-- ===== src/PingPong/Rise.antt =====
-- Every reachable state: the numbers rise by one, and one process at a time is at work on the file.
use gemtek_sw_training.Prelude.{
  length, ℕ, ◌+◌, ◌^◌, ◌≤◌, ◌<◌, ◌≡◌, ◌⊎◌, Bool, true, false, pos, List, [], ◌∷◌, arith,
}
use gemtek_sw_training.FileHandle.{Files, file_handle_write}
use gemtek_sw_training.PingPong.{
  file_name, message, get_last_line_number, Pc, start, first_write, first_kill, read, write, kill,
  System, Turn, parent_runs, child_runs, parent_signal, child_signal, turn, run, init,
}
use gemtek_sw_training.PingPong.Token.{tokens, turn-tokens}
use gemtek_sw_training.PingPong.Turns.{Sound, turn-Sound, writes}

-- between the decision to handle a signal and the signal to the other process
abbrev pub at_work : Pc → Bool
at_work start = true
at_work (first_write n) = true
at_work first_kill = true
at_work read = true
at_work (write n) = true
at_work kill = true
at_work pc = false

pub record Reached (base d steps : ℕ) (s : System) : Type 0 where
  pub count : ℕ
  pub bound : count ≤ d + steps
  pub sound : Sound base count s

module _ (parent_pid child_pid : ℕ) where
  run-tokens : (ts : List Turn) (s : System) → tokens (run parent_pid child_pid ts s) ≤ tokens s
  unfolding run
  run-tokens [] s = omega arith
  run-tokens (t ∷ ts) s =
      omega
        (arith, run-tokens ts (turn parent_pid child_pid t s), turn-tokens parent_pid child_pid t s)

  writes_le : (t : Turn) (s : System) → writes t s ≤ 1
  writes_le parent_runs s = ground arith
  writes_le child_runs s = ground arith
  writes_le parent_signal s = omega arith
  writes_le child_signal s = omega arith

  pub run-Reached :
      (base : ℕ) (ts : List Turn) (d : ℕ) (s : System)
      → Sound base d s
      → parent_pid < 10 ^ 10
      → child_pid < 10 ^ 10
      → base + d + length ts < 10 ^ 10
      → Reached base d (length ts) (run parent_pid child_pid ts s)
  unfolding run
  run-Reached base [] d s h hp hc k = record { count = d; bound = omega arith; sound = h }
  run-Reached base (t ∷ ts) d s h hp hc k =
      let r =
        run-Reached base ts (d + writes t s) (turn parent_pid child_pid t s)
          (turn-Sound parent_pid child_pid base d t s h hp hc (omega arith)) hp hc
          (omega (arith, writes_le t s)) in
      record { count = r.count; bound = omega (arith, r.bound, writes_le t s); sound = r.sound }

-- In every state that the two processes reach, by turns and signals in any order: while the parent is
-- between the decision to handle a signal and the `kill` that answers it, the child is not. One at a
-- time reads the last number and appends a line.
pub mutual_exclusion :
    (parent_pid child_pid : ℕ) (fs : Files) (ts : List Turn)
    → at_work (run parent_pid child_pid ts (init fs)).parent.pc ≡ true
    → at_work (run parent_pid child_pid ts (init fs)).child.pc ≡ false
mutual_exclusion parent_pid child_pid fs ts =
    go (run parent_pid child_pid ts (init fs)) (run-tokens parent_pid child_pid ts (init fs))
  where
    go : (s : System) → tokens s ≤ 1 → at_work s.parent.pc ≡ true → at_work s.child.pc ≡ false
    go s k p = ground arith

-- What one turn does to the file: nothing, or one line more, with the next number and the number of
-- one of the two processes.
abbrev pub Rises : ℕ → ℕ → ℕ → Files → Files → Type 0
Rises parent_pid child_pid n fs fs' =
    (fs' ≡ fs)
    ⊎ ((pid : ℕ) × ((pid ≡ parent_pid) ⊎ (pid ≡ child_pid))
        × (fs' ≡ file_handle_write fs file_name (message pid (pos (n + 1))))
        × (get_last_line_number fs' file_name ≡ pos (n + 1)))
