-- ===== src/Threads/Locks.antt =====
-- The mutex and the two semaphores have one owner at most.
use gemtek_sw_training.Prelude.{
  sum, if◌then◌else◌, ℕ, zero, suc, ◌+◌, ◌≤◌, ◌≡◌, refl, ◌∙◌, Option, none, some, List, [], ◌∷◌,
  arith,
}
use gemtek_sw_training.Threads.{
  Output, one, two, Place, lock, load, store, format, unlock, write, post, Thread, Shared,
  thread_turn, place_turn, sem_wait, sem_post, turn,
}

-- A quantity that is spread over the threads and the shared state, and that no turn changes as long as
-- it is within a bound, is never changed.
pub turn-sum :
    (f : Thread → ℕ) (g : Shared → ℕ) (b : ℕ)
    → ((rand : ℕ) (t : Thread) (s : Shared)
        → f t + g s ≤ b
        → f (thread_turn rand t s).0 + g (thread_turn rand t s).1 ≡ f t + g s)
    → (k rand : ℕ) (ts : List Thread) (s : Shared) → sum f ts + g s ≤ b
    → sum f (turn k rand ts s).0 + g (turn k rand ts s).1 ≡ sum f ts + g s
unfolding sum turn
turn-sum f g b p k rand [] s h = refl
turn-sum f g b p zero rand (t ∷ ts) s h = omega (arith, p rand t s (omega arith))
turn-sum f g b p (suc k) rand (t ∷ ts) s h =
    omega (arith, turn-sum f g b p k rand ts s (omega arith))

-- whether a place is between `pthread_mutex_lock` and `pthread_mutex_unlock`
abbrev pub in_mutex : Place → ℕ
in_mutex (load out) = 1
in_mutex (store out n) = 1
in_mutex (format out) = 1
in_mutex (unlock out n) = 1
in_mutex p = 0

-- whether a place is between `sem_wait` and `sem_post` of the semaphore of an output
abbrev pub used : Place → Option Output
used (lock out) = some out
used (load out) = some out
used (store out n) = some out
used (format out) = some out
used (unlock out n) = some out
used (write out n) = some out
used (post out) = some out
used p = none

abbrev pub is_one : Option Output → ℕ
is_one (some one) = 1
is_one o = 0

abbrev pub is_two : Option Output → ℕ
is_two (some two) = 1
is_two o = 0

abbrev pub has_mutex : Thread → ℕ
has_mutex t = in_mutex t.place

abbrev pub has_one : Thread → ℕ
has_one t = is_one (used t.place)

abbrev pub has_two : Thread → ℕ
has_two t = is_two (used t.place)

abbrev pub free : Shared → ℕ
free s = if s.locked then 0 else 1

turn-free :
    (rand : ℕ) (t : Thread) (s : Shared)
    → has_mutex t + free s ≤ 1
    → has_mutex (thread_turn rand t s).0 + free (thread_turn rand t s).1 ≡ has_mutex t + free s
unfolding thread_turn place_turn sem_wait sem_post
turn-free rand t s h = ground arith

turn-one :
    (rand : ℕ) (t : Thread) (s : Shared)
    → has_one t + s.sem1 ≤ 1
    → has_one (thread_turn rand t s).0 + (thread_turn rand t s).1.sem1 ≡ has_one t + s.sem1
unfolding thread_turn place_turn sem_wait sem_post
turn-one rand t s h = ground arith

turn-two :
    (rand : ℕ) (t : Thread) (s : Shared)
    → has_two t + s.sem2 ≤ 1
    → has_two (thread_turn rand t s).0 + (thread_turn rand t s).1.sem2 ≡ has_two t + s.sem2
unfolding thread_turn place_turn sem_wait sem_post
turn-two rand t s h = ground arith

-- Each lock is free or held by one thread.
pub record Owned (ts : List Thread) (s : Shared) : Type 0 where
  pub mutex : sum has_mutex ts + free s ≡ 1
  pub first : sum has_one ts + s.sem1 ≡ 1
  pub second : sum has_two ts + s.sem2 ≡ 1

pub turn-Owned :
    (k rand : ℕ) (ts : List Thread) (s : Shared)
    → Owned ts s
    → Owned (turn k rand ts s).0 (turn k rand ts s).1
turn-Owned k rand ts s h = record {
  mutex = turn-sum has_mutex free 1 turn-free k rand ts s (omega (arith, h.mutex)) ∙ h.mutex;
  first = turn-sum has_one (λ s. s.sem1) 1 turn-one k rand ts s (omega (arith, h.first)) ∙ h.first;
  second =
      turn-sum has_two (λ s. s.sem2) 1 turn-two k rand ts s (omega (arith, h.second)) ∙ h.second;
}
