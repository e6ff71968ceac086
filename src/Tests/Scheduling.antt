-- ===== src/Tests/Scheduling.antt =====
-- The theorems on the threads at concrete inputs.
use gemtek_sw_training.Prelude.{
  sum, replicate, All, ℕ, ◌*◌, ◌≤◌, ◌≡◌, refl, ◌⊎◌, none, List, [], ◌∷◌,
}
use gemtek_sw_training.FileHandle.{Files}
use gemtek_sw_training.Threads.{
  run, turn, thread_turn, place_turn, random_int, case_of, sem_wait, sem_post, start_threads,
}
use gemtek_sw_training.Threads.Locks.{has_mutex, has_one, has_two}
use gemtek_sw_training.Threads.Numbers.{Logs, Below}
use gemtek_sw_training.Threads.Count.{size}
use gemtek_sw_training.Threads.Text.{Texts}
use gemtek_sw_training.Threads.Schedules.{
  threads, shared, HasExited, files_rise, one_owner, no_lost_increment,
}
use gemtek_sw_training.Threads.Progress.{Advances, no_deadlock}

abbrev no_files : Files
no_files name = none

-- One thread that runs to its end.
abbrev alone : List (ℕ × ℕ)
alone = replicate 46 (0, 7)

alone-HasExited : All HasExited (threads 1 no_files alone)
unfolding run turn thread_turn place_turn random_int case_of sem_wait sem_post start_threads
alone-HasExited = (refl, tt)

no_lost_increment_example :
    ((shared 1 no_files alone).glob ≡ 5 * 1)
    × ((ls : Logs) × Texts no_files (shared 1 no_files alone) ls × (size ls ≡ 5 * 1))
no_lost_increment_example = no_lost_increment 1 no_files alone alone-HasExited

-- Three threads in turn, with different random numbers.
abbrev mixed : List (ℕ × ℕ)
mixed = (0, 1) ∷ (1, 2) ∷ (2, 4) ∷ (0, 0) ∷ (2, 0) ∷ (1, 0) ∷ (1, 0) ∷ (0, 0) ∷ (1, 0) ∷ []

files_rise_example :
    (ls : Logs) × Texts no_files (shared 3 no_files mixed) ls
    × Below ls (shared 3 no_files mixed).glob
files_rise_example = files_rise 3 no_files mixed

one_owner_example :
    (sum has_mutex (threads 3 no_files mixed) ≤ 1)
    × (sum has_one (threads 3 no_files mixed) ≤ 1)
    × (sum has_two (threads 3 no_files mixed) ≤ 1)
one_owner_example = one_owner 3 no_files mixed

no_deadlock_example :
    ((k : ℕ) × Advances (threads 3 no_files mixed) (shared 3 no_files mixed) k)
    ⊎ All HasExited (threads 3 no_files mixed)
no_deadlock_example = no_deadlock 3 no_files mixed
