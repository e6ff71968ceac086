-- ===== src/Threads/Progress.antt =====
-- No deadlock among the threads.
use gemtek_sw_training.Prelude.{
  sum, sum_zero, ltb, Bool-cases, All, All-map, ℕ, suc, ◌+◌, ◌-◌, ◌*◌, ◌<◌, ◌≡◌, ◌⊎◌, inl, inr,
  Bool, true, false, not, List, [], ◌∷◌, arith,
}
use gemtek_sw_training.FileHandle.{Files}
use gemtek_sw_training.Threads.{
  Output, one, two, Place, choose, wait, lock, load, store, format, unlock, write, post, exited,
  Thread, Shared, thread_turn, place_turn, sem_wait, sem_post, turn,
}
use gemtek_sw_training.Threads.Locks.{has_mutex, has_one, has_two, Owned}
use gemtek_sw_training.Threads.Count.{RoundFits, InRound, case_of-random_int}
use gemtek_sw_training.Threads.Schedules.{threads, shared, reached, HasExited}

-- How many turns a thread is from its exit, as if it never had to wait.
abbrev place_work : Place → ℕ → ℕ
place_work choose rest = 10 * rest + 1
place_work (wait out) rest = 10 * rest
place_work (lock out) rest = 10 * rest - 1
place_work (load out) rest = 10 * rest - 2
place_work (store out n) rest = 10 * rest - 3
place_work (format out) rest = 10 * rest - 4
place_work (unlock out n) rest = 10 * rest - 5
place_work (write out n) rest = 10 * rest - 6
place_work (post out) rest = 10 * rest - 7
place_work exited rest = 0

abbrev pub work : Thread → ℕ
work t = place_work t.place (t.loops - t.i)

sem_ready : Output → Shared → Bool
sem_ready one s = ltb 0 s.sem1
sem_ready two s = ltb 0 s.sem2

-- whether a thread that stands there can go on
ready : Place → Shared → Bool
unfolding sem_ready
ready (wait out) s = sem_ready out s
ready (lock out) s = not s.locked
ready exited s = false
ready p s = true

ready-work :
    (rand : ℕ) (p : Place) (t : Thread) (s : Shared)
    → InRound p t.i t.loops
    → ready p s ≡ true
    → work (place_turn rand p t s).0 < place_work p (t.loops - t.i)
unfolding ready place_turn sem_wait sem_post
ready-work rand choose t s r e = let c = (case_of-random_int rand).1 in rw c (ground arith)
ready-work rand (wait one) t s r e = rw e (omega arith)
ready-work rand (wait two) t s r e = rw e (omega arith)
ready-work rand (lock out) t s r e = ground arith
ready-work rand (load out) t s r e = omega arith
ready-work rand (store out n) t s r e = omega arith
ready-work rand (format out) t s r e = omega arith
ready-work rand (unlock out n) t s r e = omega arith
ready-work rand (write out n) t s r e = omega arith
ready-work rand (post one) t s r e = omega arith
ready-work rand (post two) t s r e = omega arith
ready-work rand exited t s r e = ground arith

-- Some thread can go on, or none can.
abbrev pub Advances : List Thread → Shared → ℕ → Type 0
Advances ts s k = (rand : ℕ) → sum work (turn k rand ts s).0 < sum work ts

advance-tail :
    (t : Thread) (ts : List Thread) (s : Shared) (k : ℕ)
    → Advances ts s k
    → Advances (t ∷ ts) s (suc k)
unfolding turn sum
advance-tail t ts s k h rand = omega (arith, h rand)

advance-head :
    (t : Thread) (ts : List Thread) (s : Shared)
    → InRound t.place t.i t.loops
    → ready t.place s ≡ true
    → Advances (t ∷ ts) s 0
unfolding turn sum thread_turn
advance-head t ts s r e rand = omega (arith, ready-work rand t.place t s r e)

abbrev IsBlocked : Shared → Thread → Type 0
IsBlocked s t = ready t.place s ≡ false

find_ready :
    (ts : List Thread) (s : Shared)
    → All RoundFits ts
    → ((k : ℕ) × Advances ts s k) ⊎ All (IsBlocked s) ts
find_ready [] s r = inr tt
find_ready (t ∷ ts) s (r, rs) = elim (Bool-cases (ready t.place s)) [
  | inl e ↦ inl (0, advance-head t ts s r e)
  | inr e ↦ elim (find_ready ts s rs) [
    | inl p ↦ inl (suc p.0, advance-tail t ts s p.0 p.1)
    | inr h ↦ inr (e, h)
  ]
]

blocked_mutex : (s : Shared) (t : Thread) → IsBlocked s t → has_mutex t ≡ 0
unfolding ready
blocked_mutex s t h = ground arith

blocked_one : (s : Shared) → s.locked ≡ false → (t : Thread) → IsBlocked s t → has_one t ≡ 0
unfolding ready
blocked_one s e t h = ground arith

blocked_two : (s : Shared) → s.locked ≡ false → (t : Thread) → IsBlocked s t → has_two t ≡ 0
unfolding ready
blocked_two s e t h = ground arith

blocked_exited :
    (s : Shared)
    → s.locked ≡ false
    → s.sem1 ≡ 1
    → s.sem2 ≡ 1
    → (t : Thread) → IsBlocked s t
    → HasExited t
unfolding ready sem_ready
blocked_exited s e f g t h = ground arith

-- If every thread is blocked, no lock is held, so every thread has exited.
no_one_ready :
    (ts : List Thread) (s : Shared) → Owned ts s → All (IsBlocked s) ts → All HasExited ts
no_one_ready ts s o h = All-map ts (blocked_exited s unlocked first second) h
  where
    unlocked : s.locked ≡ false
    unlocked = ground (arith, o.mutex, sum_zero has_mutex ts (All-map ts (blocked_mutex s) h))

    first : s.sem1 ≡ 1
    first = omega (arith, o.first, sum_zero has_one ts (All-map ts (blocked_one s unlocked) h))

    second : s.sem2 ≡ 1
    second = omega (arith, o.second, sum_zero has_two ts (All-map ts (blocked_two s unlocked) h))

-- There is no deadlock, and what is left to do is finite: in every state that the threads reach, either
-- all of them have exited, or some thread can make a turn that brings the work of all threads down,
-- whatever its random number.
pub no_deadlock :
    (count : ℕ) (old : Files) (turns : List (ℕ × ℕ))
    → ((k : ℕ) × Advances (threads count old turns) (shared count old turns) k)
      ⊎ All HasExited (threads count old turns)
no_deadlock count old turns =
    let (ls, h) = reached count old turns in
    elim (find_ready (threads count old turns) (shared count old turns) h.in_rounds) [
      | inl p ↦ inl p
      | inr b ↦ inr (no_one_ready (threads count old turns) (shared count old turns) h.owned b)
    ]
