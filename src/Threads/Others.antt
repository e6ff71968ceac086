-- ===== src/Threads/Others.antt =====
-- A turn of one thread and the numbers of the others: what the locks keep apart.
use gemtek_sw_training.Prelude.{sum, All, ℕ, zero, suc, ◌+◌, ◌≤◌, refl, List, [], ◌∷◌, arith}
use gemtek_sw_training.Threads.{
  one, two, Place, choose, wait, lock, load, store, format, unlock, write, post, exited, Thread,
  Shared, thread_turn, place_turn, sem_wait, sem_post, turn,
}
use gemtek_sw_training.Threads.Locks.{in_mutex, used, is_one, is_two, has_mutex, has_one, has_two}
use gemtek_sw_training.Threads.Numbers.{
  Logs, logged, logged_at, turn_logs, Fits, ThreadFits, Below, moved-Fits, moved-Below, grown-Fits,
}

one-Fits :
    (q : Place) (ls : Logs) (e : ℕ × ℕ) (glob : ℕ)
    → is_one (used q) ≤ 0
    → Fits q ls glob
    → Fits q (record { first = e ∷ ls.first; second = ls.second }) glob
one-Fits q ls e glob h f = ground arith

two-Fits :
    (q : Place) (ls : Logs) (e : ℕ × ℕ) (glob : ℕ)
    → is_two (used q) ≤ 0
    → Fits q ls glob
    → Fits q (record { first = ls.first; second = e ∷ ls.second }) glob
two-Fits q ls e glob h f = ground arith

-- Two places that can be held at the same time.
record Apart (p q : Place) : Type 0 where
  mutex : in_mutex p + in_mutex q ≤ 1
  first : is_one (used p) + is_one (used q) ≤ 1
  second : is_two (used p) + is_two (used q) ≤ 1

-- A thread that does not move keeps its part.
other-Fits :
    (rand : ℕ) (p q : Place) (t : Thread) (s : Shared) (ls : Logs)
    → Apart p q
    → Fits p ls s.glob
    → Fits q ls s.glob
    → Fits q (logged_at p t.thread_id ls) (place_turn rand p t s).1.glob
unfolding place_turn sem_wait sem_post
other-Fits rand choose q t s ls a f g = g
other-Fits rand (wait one) q t s ls a f g = ground arith
other-Fits rand (wait two) q t s ls a f g = ground arith
other-Fits rand (lock out) q t s ls a f g = ground arith
other-Fits rand (load out) q t s ls a f g = g
other-Fits rand (store out n) q t s ls a f g =
    rw f (grown-Fits q ls s.glob (omega (arith, a.mutex)) g)
other-Fits rand (format out) q t s ls a f g = g
other-Fits rand (unlock out n) q t s ls a f g = g
other-Fits rand (write one n) q t s ls a f g =
    one-Fits q ls (t.thread_id, n) s.glob (omega (arith, a.first)) g
other-Fits rand (write two n) q t s ls a f g =
    two-Fits q ls (t.thread_id, n) s.glob (omega (arith, a.second)) g
other-Fits rand (post one) q t s ls a f g = g
other-Fits rand (post two) q t s ls a f g = g
other-Fits rand exited q t s ls a f g = g

-- Every lock has one owner at most among these threads.
pub record Single (ts : List Thread) : Type 0 where
  pub mutex : sum has_mutex ts ≤ 1
  pub first : sum has_one ts ≤ 1
  pub second : sum has_two ts ≤ 1

Single-tail : (t : Thread) (ts : List Thread) → Single (t ∷ ts) → Single ts
unfolding sum
Single-tail t ts h = record {
  mutex = omega (arith, h.mutex);
  first = omega (arith, h.first);
  second = omega (arith, h.second);
}

Single-Apart :
    (t u : Thread) (ts : List Thread)
    → Single (t ∷ u ∷ ts)
    → Apart t.place u.place × Apart u.place t.place × Single (t ∷ ts) × Single (u ∷ ts)
unfolding sum
Single-Apart t u ts h = (
  record {
    mutex = omega (arith, h.mutex);
    first = omega (arith, h.first);
    second = omega (arith, h.second);
  },
  record {
    mutex = omega (arith, h.mutex);
    first = omega (arith, h.first);
    second = omega (arith, h.second);
  },
  record {
    mutex = omega (arith, h.mutex);
    first = omega (arith, h.first);
    second = omega (arith, h.second);
  },
  record {
    mutex = omega (arith, h.mutex);
    first = omega (arith, h.first);
    second = omega (arith, h.second);
  },
)

others-Fits :
    (rand : ℕ) (t : Thread) (us : List Thread) (s : Shared) (ls : Logs)
    → Single (t ∷ us)
    → ThreadFits ls s.glob t
    → All (ThreadFits ls s.glob) us
    → All (ThreadFits (logged t ls) (thread_turn rand t s).1.glob) us
unfolding thread_turn
others-Fits rand t [] s ls h f g = tt
others-Fits rand t (u ∷ us) s ls h f g = (
  other-Fits rand t.place u.place t s ls (Single-Apart t u us h).0 f g.0,
  others-Fits rand t us s ls (Single-Apart t u us h).2 f g.1,
)

-- The same for a thread in front of those of which one moves.
spectator-Fits :
    (k rand : ℕ) (u : Thread) (ts : List Thread) (s : Shared) (ls : Logs)
    → Single (u ∷ ts)
    → ThreadFits ls s.glob u
    → All (ThreadFits ls s.glob) ts
    → ThreadFits (turn_logs k ts ls) (turn k rand ts s).1.glob u
unfolding turn turn_logs thread_turn
spectator-Fits k rand u [] s ls h g f = g
spectator-Fits zero rand u (t ∷ ts) s ls h g f =
    other-Fits rand t.place u.place t s ls (Single-Apart u t ts h).1 f.0 g
spectator-Fits (suc k) rand u (t ∷ ts) s ls h g f =
    spectator-Fits k rand u ts s ls (Single-Apart u t ts h).2 g f.1

pub turn-Fits :
    (k rand : ℕ) (ts : List Thread) (s : Shared) (ls : Logs)
    → Single ts
    → Below ls s.glob
    → All (ThreadFits ls s.glob) ts
    → All (ThreadFits (turn_logs k ts ls) (turn k rand ts s).1.glob) (turn k rand ts s).0
      × Below (turn_logs k ts ls) (turn k rand ts s).1.glob
unfolding turn turn_logs thread_turn
turn-Fits k rand [] s ls h b f = (tt, b)
turn-Fits zero rand (t ∷ ts) s ls h b f = (
  (moved-Fits rand t.place t s ls refl f.0 b, others-Fits rand t ts s ls h f.0 f.1),
  moved-Below rand t.place t s ls f.0 b,
)
turn-Fits (suc k) rand (t ∷ ts) s ls h b f =
    let r = turn-Fits k rand ts s ls (Single-tail t ts h) b f.1 in
    ((spectator-Fits k rand t ts s ls h f.0 f.1, r.0), r.1)
