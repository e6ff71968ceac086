-- ===== src/Tests/Processes.antt =====
-- The theorems on the two processes at concrete inputs.
use gemtek_sw_training.Prelude.{◌≡◌, refl, true, false, none, some, List, [], ◌∷◌, ◌++◌, codes}
use gemtek_sw_training.FileHandle.{Files}
use gemtek_sw_training.PingPong.{
  pause, asleep, System, Turn, parent_runs, child_runs, parent_signal, child_signal, turn, run,
  init, parent_turn,
}
use gemtek_sw_training.PingPong.Rise.{at_work, mutual_exclusion}
use gemtek_sw_training.PingPong.Wakeup.{signal_lost}

abbrev no_file : Files
no_file name = none

-- the parent's first line, its signal, and the answer of the child up to its own line
abbrev answer : List Turn
answer =
    parent_runs ∷ parent_runs ∷ parent_runs ∷ child_runs ∷ child_signal ∷ child_runs ∷ child_runs
    ∷ []

starts_at_work : at_work (run 7 8 (parent_runs ∷ []) (init no_file)).parent.pc ≡ true
unfolding run turn parent_turn
starts_at_work = refl

mutual_exclusion_example : at_work (run 7 8 (parent_runs ∷ []) (init no_file)).child.pc ≡ false
mutual_exclusion_example = mutual_exclusion 7 8 no_file (parent_runs ∷ []) starts_at_work

abbrev fourteen : Files
fourteen name = some (codes "Process 1: 14" ++ b'\n' ∷ [])

-- The child answered while the parent was between its test and `pause`.
abbrev late : System
late = record {
  files = no_file;
  parent = record { pc = pause; received_sig = false; pending = true };
  child = record { pc = asleep; received_sig = false; pending = false };
}

signal_lost_example :
    (run 7 8 (parent_signal ∷ parent_runs ∷ child_runs ∷ []) late
      ≡ run 7 8 (parent_signal ∷ parent_runs ∷ []) late)
    × ((run 7 8 (parent_signal ∷ parent_runs ∷ child_runs ∷ []) late).parent.received_sig ≡ true)
signal_lost_example = signal_lost 7 8 late (child_runs ∷ []) (record {
  parent_pauses = refl;
  parent_called = refl;
  child_sleeps = refl;
  child_uncalled = refl;
})
