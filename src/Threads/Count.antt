-- ===== src/Threads/Count.antt =====
-- How often the threads count, write and go round.
use gemtek_sw_training.Prelude.{
  sum, ◌==◌, Bool-cases, length, All, ℕ, zero, suc, ◌+◌, ◌%◌, ◌≤◌, ◌<◌, ◌≡◌, refl, inl, inr, true,
  false, some, List, [], ◌∷◌, arith,
}
use gemtek_sw_training.Threads.{
  Output, one, two, case_of, random_int, Place, choose, wait, lock, load, store, format, unlock,
  write, post, exited, Thread, Shared, thread_turn, place_turn, sem_wait, sem_post, turn,
}
use gemtek_sw_training.Threads.Numbers.{Logs, logged_at, turn_logs, Fits, ThreadFits}

abbrev pub past_store : Place → ℕ
past_store (format out) = 1
past_store (unlock out n) = 1
past_store (write out n) = 1
past_store (post out) = 1
past_store p = 0

abbrev pub past_write : Place → ℕ
past_write (post out) = 1
past_write p = 0

-- the increments of a thread, and its lines
abbrev pub counted : Thread → ℕ
counted t = t.i + past_store t.place

abbrev pub written : Thread → ℕ
written t = t.i + past_write t.place

abbrev pub size : Logs → ℕ
size ls = length ls.first + length ls.second

-- The `switch` always finds its case.
pub case_of-random_int : (rand : ℕ) → (out : Output) × (case_of (random_int rand 1 2) ≡ some out)
unfolding case_of random_int
case_of-random_int rand = elim (Bool-cases (rand % 2 + 1 == 1)) [
  | inl e ↦ (one, rw e refl)
  | inr e ↦ (two, rw (e, other rand e) refl)
]
  where
    other : (rand : ℕ) → (rand % 2 + 1 == 1) ≡ false → (rand % 2 + 1 == 2) ≡ true
    other rand e = ground arith

thread-counted :
    (rand : ℕ) (p : Place) (t : Thread) (s : Shared) (ls : Logs)
    → p ≡ t.place
    → Fits p ls s.glob
    → counted (place_turn rand p t s).0 + s.glob
      ≡ (t.i + past_store p) + (place_turn rand p t s).1.glob
unfolding place_turn sem_wait sem_post
thread-counted rand choose t s ls e f = let c = (case_of-random_int rand).1 in rw c (ground arith)
thread-counted rand (wait one) t s ls e f = ground arith
thread-counted rand (wait two) t s ls e f = ground arith
thread-counted rand (lock out) t s ls e f = ground arith
thread-counted rand (load out) t s ls e f = omega arith
thread-counted rand (store out n) t s ls e f = omega (arith, f)
thread-counted rand (format out) t s ls e f = omega arith
thread-counted rand (unlock out n) t s ls e f = omega arith
thread-counted rand (write out n) t s ls e f = omega arith
thread-counted rand (post one) t s ls e f = omega arith
thread-counted rand (post two) t s ls e f = omega arith
thread-counted rand exited t s ls e f = rw (← e) refl

thread-written :
    (rand : ℕ) (p : Place) (t : Thread) (s : Shared) (ls : Logs)
    → p ≡ t.place
    → written (place_turn rand p t s).0 + size ls
      ≡ (t.i + past_write p) + size (logged_at p t.thread_id ls)
unfolding place_turn sem_wait sem_post
thread-written rand choose t s ls e = let c = (case_of-random_int rand).1 in rw c (ground arith)
thread-written rand (wait one) t s ls e = ground arith
thread-written rand (wait two) t s ls e = ground arith
thread-written rand (lock out) t s ls e = ground arith
thread-written rand (load out) t s ls e = omega arith
thread-written rand (store out n) t s ls e = omega arith
thread-written rand (format out) t s ls e = omega arith
thread-written rand (unlock out n) t s ls e = omega arith
thread-written rand (write one n) t s ls e = omega arith
thread-written rand (write two n) t s ls e = omega arith
thread-written rand (post one) t s ls e = omega arith
thread-written rand (post two) t s ls e = omega arith
thread-written rand exited t s ls e = rw (← e) refl

pub turn-counted :
    (k rand : ℕ) (ts : List Thread) (s : Shared) (ls : Logs)
    → All (ThreadFits ls s.glob) ts
    → sum counted (turn k rand ts s).0 + s.glob ≡ sum counted ts + (turn k rand ts s).1.glob
unfolding turn thread_turn sum
turn-counted k rand [] s ls f = refl
turn-counted zero rand (t ∷ ts) s ls f = omega (arith, thread-counted rand t.place t s ls refl f.0)
turn-counted (suc k) rand (t ∷ ts) s ls f = omega (arith, turn-counted k rand ts s ls f.1)

pub turn-written :
    (k rand : ℕ) (ts : List Thread) (s : Shared) (ls : Logs)
    → sum written (turn k rand ts s).0 + size ls ≡ sum written ts + size (turn_logs k ts ls)
unfolding turn thread_turn turn_logs sum
turn-written k rand [] s ls = refl
turn-written zero rand (t ∷ ts) s ls = omega (arith, thread-written rand t.place t s ls refl)
turn-written (suc k) rand (t ∷ ts) s ls = omega (arith, turn-written k rand ts s ls)

-- How many rounds a thread has made, by its place.
abbrev pub InRound : Place → ℕ → ℕ → Type 0
InRound choose i loops = i ≤ loops
InRound exited i loops = i ≡ loops
InRound p i loops = i < loops

abbrev pub RoundFits : Thread → Type 0
RoundFits t = InRound t.place t.i t.loops

thread-RoundFits :
    (rand : ℕ) (p : Place) (t : Thread) (s : Shared)
    → p ≡ t.place
    → InRound p t.i t.loops
    → RoundFits (place_turn rand p t s).0 × ((place_turn rand p t s).0.loops ≡ t.loops)
unfolding place_turn sem_wait sem_post
thread-RoundFits rand choose t s e f = let c = (case_of-random_int rand).1 in rw c (ground arith)
thread-RoundFits rand (wait one) t s e f = ground arith
thread-RoundFits rand (wait two) t s e f = ground arith
thread-RoundFits rand (lock out) t s e f = ground arith
thread-RoundFits rand (load out) t s e f = (f, refl)
thread-RoundFits rand (store out n) t s e f = (f, refl)
thread-RoundFits rand (format out) t s e f = (f, refl)
thread-RoundFits rand (unlock out n) t s e f = (f, refl)
thread-RoundFits rand (write out n) t s e f = (f, refl)
thread-RoundFits rand (post one) t s e f = (omega arith, refl)
thread-RoundFits rand (post two) t s e f = (omega arith, refl)
thread-RoundFits rand exited t s e f = (rw (← e) f, refl)

abbrev pub rounds : Thread → ℕ
rounds t = t.loops

pub turn-RoundFits :
    (k rand : ℕ) (ts : List Thread) (s : Shared)
    → All RoundFits ts
    → All RoundFits (turn k rand ts s).0 × (sum rounds (turn k rand ts s).0 ≡ sum rounds ts)
unfolding turn thread_turn sum
turn-RoundFits k rand [] s f = (tt, refl)
turn-RoundFits zero rand (t ∷ ts) s f =
    let r = thread-RoundFits rand t.place t s refl f.0 in ((r.0, f.1), omega (arith, r.1))
turn-RoundFits (suc k) rand (t ∷ ts) s f =
    let r = turn-RoundFits k rand ts s f.1 in ((f.0, r.0), omega (arith, r.1))
