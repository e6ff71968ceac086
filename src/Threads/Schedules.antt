-- ===== src/Threads/Schedules.antt =====
-- Every schedule of the threads: rising numbers, no lost increment, one owner of each lock.
use gemtek_sw_training.Prelude.{
  sum, All, ℕ, zero, suc, ◌+◌, ◌*◌, ◌≤◌, ◌≡◌, refl, ◌∙◌, List, [], ◌∷◌, arith,
}
use gemtek_sw_training.FileHandle.{Files}
use gemtek_sw_training.Threads.{Place, exited, Thread, Shared, turn, run, init, start_threads}
use gemtek_sw_training.Threads.Locks.{has_mutex, has_one, has_two, Owned, turn-Owned}
use gemtek_sw_training.Threads.Numbers.{Logs, IsFalling, Below, ThreadFits, turn_logs}
use gemtek_sw_training.Threads.Others.{Single, turn-Fits}
use gemtek_sw_training.Threads.Count.{
  counted, written, size, rounds, RoundFits, InRound, past_store, past_write, turn-counted,
  turn-written, turn-RoundFits,
}
use gemtek_sw_training.Threads.Text.{Texts, text, turn-Texts}

-- What holds in every state that the threads reach.
pub record Sound (old : Files) (total : ℕ) (ts : List Thread) (s : Shared) (ls : Logs)
    : Type 0 where
  pub owned : Owned ts s
  pub fits : All (ThreadFits ls s.glob) ts
  pub below : Below ls s.glob
  pub texts : Texts old s ls
  pub counts : sum counted ts ≡ s.glob
  pub writes : sum written ts ≡ size ls
  pub in_rounds : All RoundFits ts
  pub all_rounds : sum rounds ts ≡ total

Owned-Single : (ts : List Thread) (s : Shared) → Owned ts s → Single ts
Owned-Single ts s h = record {
  mutex = omega (arith, h.mutex);
  first = omega (arith, h.first);
  second = omega (arith, h.second);
}

turn-Sound :
    (old : Files) (total k rand : ℕ) (ts : List Thread) (s : Shared) (ls : Logs)
    → Sound old total ts s ls
    → Sound old total (turn k rand ts s).0 (turn k rand ts s).1 (turn_logs k ts ls)
turn-Sound old total k rand ts s ls h =
    let f = turn-Fits k rand ts s ls (Owned-Single ts s h.owned) h.below h.fits in
    let r = turn-RoundFits k rand ts s h.in_rounds in
    record {
      owned = turn-Owned k rand ts s h.owned;
      fits = f.0;
      below = f.1;
      texts = turn-Texts k rand old ts s ls h.texts;
      counts = omega (arith, h.counts, turn-counted k rand ts s ls h.fits);
      writes = omega (arith, h.writes, turn-written k rand ts s ls);
      in_rounds = r.0;
      all_rounds = r.1 ∙ h.all_rounds;
    }

pub run-Sound :
    (old : Files) (total : ℕ) (turns : List (ℕ × ℕ)) (ts : List Thread) (s : Shared) (ls : Logs)
    → Sound old total ts s ls
    → (ls' : Logs) × Sound old total (run turns ts s).0 (run turns ts s).1 ls'
unfolding run
run-Sound old total [] ts s ls h = (ls, h)
run-Sound old total ((k, rand) ∷ turns) ts s ls h =
    run-Sound old total turns (turn k rand ts s).0 (turn k rand ts s).1 (turn_logs k ts ls)
      (turn-Sound old total k rand ts s ls h)

abbrev no_logs : Logs
no_logs = record { first = []; second = [] }

start_lem :
    (first count : ℕ) (old : Files)
    → All (ThreadFits no_logs 0) (start_threads first count)
      × All RoundFits (start_threads first count)
      × (sum rounds (start_threads first count) ≡ 5 * count)
      × (sum counted (start_threads first count) ≡ 0)
      × (sum written (start_threads first count) ≡ 0)
      × (sum has_mutex (start_threads first count) ≡ 0)
      × (sum has_one (start_threads first count) ≡ 0)
      × (sum has_two (start_threads first count) ≡ 0)
unfolding start_threads sum
start_lem first zero old = (tt, tt, refl, refl, refl, refl, refl, refl)
start_lem first (suc count) old =
    let (f, r, n, c, w, m, o, q) = start_lem (first + 1) count old in
    (
      (tt, f),
      (omega arith, r),
      omega arith,
      omega arith,
      omega arith,
      omega arith,
      omega arith,
      omega arith,
    )

start-Sound :
    (count : ℕ) (old : Files) → Sound old (5 * count) (start_threads 0 count) (init old) no_logs
unfolding text IsFalling
start-Sound count old =
    let (f, r, n, c, w, m, o, q) = start_lem 0 count old in
    record {
      owned = record { mutex = omega arith; first = omega arith; second = omega arith };
      fits = f;
      below = record { first = tt; second = tt };
      texts = record { first = refl; second = refl };
      counts = c;
      writes = w;
      in_rounds = r;
      all_rounds = n;
    }

abbrev pub threads : ℕ → Files → List (ℕ × ℕ) → List Thread
threads count old turns = (run turns (start_threads 0 count) (init old)).0

abbrev pub shared : ℕ → Files → List (ℕ × ℕ) → Shared
shared count old turns = (run turns (start_threads 0 count) (init old)).1

pub reached :
    (count : ℕ) (old : Files) (turns : List (ℕ × ℕ))
    → (ls : Logs) × Sound old (5 * count) (threads count old turns) (shared count old turns) ls
reached count old turns =
    run-Sound old (5 * count) turns (start_threads 0 count) (init old) no_logs
      (start-Sound count old)

-- For any number of threads, any schedule and any random numbers: behind what it held before, each of
-- the two files holds lines with rising numbers, none of them above `glob`.
pub files_rise :
    (count : ℕ) (old : Files) (turns : List (ℕ × ℕ))
    → (ls : Logs) × Texts old (shared count old turns) ls × Below ls (shared count old turns).glob
files_rise count old turns = let (ls, h) = reached count old turns in (ls, h.texts, h.below)

-- In every state that the threads reach, in any schedule: at most one thread is between the lock and
-- the unlock of the mutex, and at most one between the wait and the post of each semaphore.
pub one_owner :
    (count : ℕ) (old : Files) (turns : List (ℕ × ℕ))
    → (sum has_mutex (threads count old turns) ≤ 1)
      × (sum has_one (threads count old turns) ≤ 1)
      × (sum has_two (threads count old turns) ≤ 1)
one_owner count old turns =
    let (ls, h) = reached count old turns in
    let o = h.owned in (omega (arith, o.mutex), omega (arith, o.first), omega (arith, o.second))

abbrev pub HasExited : Thread → Type 0
HasExited t = t.place ≡ exited

exited-sums :
    (ts : List Thread)
    → All HasExited ts
    → All RoundFits ts
    → (sum counted ts ≡ sum rounds ts) × (sum written ts ≡ sum rounds ts)
unfolding sum
exited-sums [] e r = (refl, refl)
exited-sums (t ∷ ts) (e, es) (r, rs) =
    let (c, w) = exited-sums ts es rs in
    let (a, b) = here t.place t.i t.loops e r in (omega (arith, a), omega (arith, b))
  where
    here :
        (p : Place) (i loops : ℕ)
        → p ≡ exited
        → InRound p i loops
        → (i + past_store p ≡ loops) × (i + past_write p ≡ loops)
    here p i loops e r = ground arith

-- When all threads have exited, in any schedule: `glob` has counted five times for each of them, so no
-- increment is lost, and the two files have together got five lines for each.
pub no_lost_increment :
    (count : ℕ) (old : Files) (turns : List (ℕ × ℕ))
    → All HasExited (threads count old turns)
    → ((shared count old turns).glob ≡ 5 * count)
      × ((ls : Logs) × Texts old (shared count old turns) ls × (size ls ≡ 5 * count))
no_lost_increment count old turns e =
    let (ls, h) = reached count old turns in
    let (c, w) = exited-sums (threads count old turns) e h.in_rounds in
    (omega (arith, h.counts, h.all_rounds), (ls, h.texts, omega (arith, h.writes, h.all_rounds)))
