-- ===== src/Threads/Numbers.antt =====
-- The numbers that the threads write, and what the place of a thread says of them.
use gemtek_sw_training.Prelude.{
  if◌then◌else◌, ℕ, zero, suc, ◌+◌, ◌≤◌, ◌<◌, ◌≡◌, refl, Bool, true, false, Option, none, some,
  List, [], ◌∷◌, arith,
}
use gemtek_sw_training.Threads.{
  Output, one, two, Place, choose, wait, lock, load, store, format, unlock, write, post, exited,
  Thread, Shared, at, begin_round, place_turn, sem_wait, sem_post,
}
use gemtek_sw_training.Threads.Locks.{in_mutex}

-- The lines that one file has got, the last one first: the thread and its number.
abbrev pub Log : Type 0
Log = List (ℕ × ℕ)

pub record Logs : Type 0 where
  pub first : Log
  pub second : Log

abbrev pub of : Output → Logs → Log
of one ls = ls.first
of two ls = ls.second

-- Each number is above those before it, and the last one is below a bound.
unfoldable pub IsFalling : ℕ → Log → Type 0
IsFalling b [] = Unit {0}
IsFalling b ((thread_id, n) ∷ l) = (n < b) × IsFalling n l

pub IsFalling-mono : (a b : ℕ) (l : Log) → a ≤ b → IsFalling a l → IsFalling b l
unfolding IsFalling
IsFalling-mono a b [] h p = tt
IsFalling-mono a b ((thread_id, n) ∷ l) h (k, p) = (omega arith, p)

-- The log after the turn of a thread that stands there.
abbrev pub logged_at : Place → ℕ → Logs → Logs
logged_at (write one n) thread_id ls = record {
  first = (thread_id, n) ∷ ls.first;
  second = ls.second;
}
logged_at (write two n) thread_id ls = record {
  first = ls.first;
  second = (thread_id, n) ∷ ls.second;
}
logged_at p thread_id ls = ls

abbrev pub logged : Thread → Logs → Logs
logged t ls = logged_at t.place t.thread_id ls

unfoldable pub turn_logs : ℕ → List Thread → Logs → Logs
turn_logs k [] ls = ls
turn_logs zero (t ∷ ts) ls = logged t ls
turn_logs (suc k) (t ∷ ts) ls = turn_logs k ts ls

-- What the place of a thread says of `glob` and of the lines that are written.
abbrev pub Fits : Place → Logs → ℕ → Type 0
Fits (store out n) ls glob = n ≡ glob
Fits (format out) ls glob = IsFalling glob (of out ls)
Fits (unlock out n) ls glob = (n ≤ glob) × IsFalling n (of out ls)
Fits (write out n) ls glob = (n ≤ glob) × IsFalling n (of out ls)
Fits p ls glob = Unit {0}

abbrev pub ThreadFits : Logs → ℕ → Thread → Type 0
ThreadFits ls glob t = Fits t.place ls glob

pub record Below (ls : Logs) (glob : ℕ) : Type 0 where
  pub first : IsFalling (glob + 1) ls.first
  pub second : IsFalling (glob + 1) ls.second

Below-of : (out : Output) (ls : Logs) (glob : ℕ) → Below ls glob → IsFalling (glob + 1) (of out ls)
Below-of one ls glob h = h.first
Below-of two ls glob h = h.second

begun-Fits :
    (t : Thread) (o : Option Output) (ls : Logs) (glob : ℕ) → Fits (begin_round t o).place ls glob
begun-Fits t none ls glob = tt
begun-Fits t (some out) ls glob = tt

choose-Fits :
    (b : Bool) (t : Thread) (o : Option Output) (ls : Logs) (glob : ℕ)
    → Fits (if b then begin_round t o else at t exited).place ls glob
choose-Fits true t o ls glob = begun-Fits t o ls glob
choose-Fits false t o ls glob = tt

-- The thread that moves keeps its part.
pub moved-Fits :
    (rand : ℕ) (p : Place) (t : Thread) (s : Shared) (ls : Logs)
    → p ≡ t.place
    → Fits p ls s.glob
    → Below ls s.glob
    → Fits
        (place_turn rand p t s).0.place
        (logged_at p t.thread_id ls)
        (place_turn rand p t s).1.glob
unfolding place_turn sem_wait sem_post
moved-Fits rand choose t s ls e f b = choose-Fits _ t _ ls s.glob
moved-Fits rand (wait one) t s ls e f b = ground arith
moved-Fits rand (wait two) t s ls e f b = ground arith
moved-Fits rand (lock out) t s ls e f b = ground arith
moved-Fits rand (load out) t s ls e f b = refl
moved-Fits rand (store out n) t s ls e f b = rw f (Below-of out ls s.glob b)
moved-Fits rand (format out) t s ls e f b = (omega arith, f)
moved-Fits rand (unlock out n) t s ls e f b = f
moved-Fits rand (write one n) t s ls e f b = tt
moved-Fits rand (write two n) t s ls e f b = tt
moved-Fits rand (post one) t s ls e f b = tt
moved-Fits rand (post two) t s ls e f b = tt
moved-Fits rand exited t s ls e f b = rw (← e) tt

pub moved-Below :
    (rand : ℕ) (p : Place) (t : Thread) (s : Shared) (ls : Logs)
    → Fits p ls s.glob
    → Below ls s.glob
    → Below (logged_at p t.thread_id ls) (place_turn rand p t s).1.glob
unfolding place_turn sem_wait sem_post IsFalling
moved-Below rand choose t s ls f b = b
moved-Below rand (wait one) t s ls f b = ground arith
moved-Below rand (wait two) t s ls f b = ground arith
moved-Below rand (lock out) t s ls f b = ground arith
moved-Below rand (load out) t s ls f b = b
moved-Below rand (store out n) t s ls f b = record {
  first = IsFalling-mono (s.glob + 1) _ ls.first (omega arith) b.first;
  second = IsFalling-mono (s.glob + 1) _ ls.second (omega arith) b.second;
}
moved-Below rand (format out) t s ls f b = b
moved-Below rand (unlock out n) t s ls f b = b
moved-Below rand (write one n) t s ls f b = record { first = (omega arith, f.1); second = b.second }
moved-Below rand (write two n) t s ls f b = record { first = b.first; second = (omega arith, f.1) }
moved-Below rand (post one) t s ls f b = b
moved-Below rand (post two) t s ls f b = b
moved-Below rand exited t s ls f b = b

-- Outside of the mutex a thread does not see that `glob` grows.
pub grown-Fits :
    (q : Place) (ls : Logs) (glob : ℕ) → in_mutex q ≤ 0 → Fits q ls glob → Fits q ls (glob + 1)
grown-Fits (store out n) ls glob h f = absurd (omega arith)
grown-Fits (format out) ls glob h f = absurd (omega arith)
grown-Fits (unlock out n) ls glob h f = absurd (omega arith)
grown-Fits (write out n) ls glob h f = (omega arith, f.1)
grown-Fits choose ls glob h f = tt
grown-Fits (wait out) ls glob h f = tt
grown-Fits (lock out) ls glob h f = tt
grown-Fits (load out) ls glob h f = tt
grown-Fits (post out) ls glob h f = tt
grown-Fits exited ls glob h f = tt
