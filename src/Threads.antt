-- ===== src/Threads.antt =====
-- 04-IPC-Synchronization/01-Multi-Threading-Mutex-Semaphore/main.c: threads that count in `glob` under
-- a mutex and write to one of two files under its semaphore. `SYSCALL_ERROR` tests for -1, which the
-- functions of pthread never return.
pub mod FileHandle
pub mod Locks
pub mod Numbers
pub mod Others
pub mod Count
pub mod Text
pub mod Schedules
pub mod Progress
use gemtek_sw_training.Prelude.{
  ltb, ◌==◌, if◌then◌else◌, ℕ, zero, suc, ◌+◌, ◌-◌, ◌%◌, Bool, true, false, pos, Option, none, some,
  List, [], ◌∷◌, ◌++◌, Bytes, codes,
}
use gemtek_sw_training.CString.Format.{print_int}
use gemtek_sw_training.FileHandle.{Files, file_handle_write}

unfoldable pub random_int : ℕ → ℕ → ℕ → ℕ
random_int rand min max = rand % (max - min + 1) + min

-- The cases of the `switch`, each with its file and its semaphore.
pub data Output : Type 0 where
  one two : Output

unfoldable pub case_of : ℕ → Option Output
case_of rand = if rand == 1 then some one else if rand == 2 then some two else none

-- `sprintf(filename, "output%d.txt", rand)`
abbrev pub output_name : Output → Bytes
output_name one = codes "output1.txt"
output_name two = codes "output2.txt"

unfoldable pub line_text : ℕ → ℕ → Bytes
line_text thread_id glob =
    ((codes "Thread " ++ print_int (pos thread_id)) ++ (codes "    |   " ++ print_int (pos glob)))
    ++ b'\n' ∷ []

-- What a thread does next. `glob++` is a read and a write of `glob`.
pub data Place : Type 0 where
  choose : Place
  wait : Output → Place
  lock : Output → Place
  load : Output → Place
  store : Output → ℕ → Place
  format : Output → Place
  unlock : Output → ℕ → Place
  write : Output → ℕ → Place
  post : Output → Place
  exited : Place

-- A thread with its attributes and the `i` of its loop.
pub record Thread : Type 0 where
  pub thread_id : ℕ
  pub loops : ℕ
  pub i : ℕ
  pub place : Place

-- What the threads share.
pub record Shared : Type 0 where
  pub glob : ℕ
  pub locked : Bool
  pub sem1 : ℕ
  pub sem2 : ℕ
  pub files : Files

abbrev pub at : Thread → Place → Thread
at t p = record t { place = p }

abbrev pub next_round : Thread → Thread
next_round t = record t { i = t.i + 1; place = choose }

abbrev pub begin_round : Thread → Option Output → Thread
begin_round t none = next_round t
begin_round t (some out) = at t (wait out)

-- `sem_wait` goes on if the value is positive, and `sem_post` adds one.
unfoldable pub sem_wait : Output → Thread → Shared → Thread × Shared
sem_wait one t s =
    if ltb 0 s.sem1 then (at t (lock one), record s { sem1 = s.sem1 - 1 }) else (t, s)
sem_wait two t s =
    if ltb 0 s.sem2 then (at t (lock two), record s { sem2 = s.sem2 - 1 }) else (t, s)

unfoldable pub sem_post : Output → Shared → Shared
sem_post one s = record s { sem1 = s.sem1 + 1 }
sem_post two s = record s { sem2 = s.sem2 + 1 }

-- One turn of `thread_handler`; `rand` is what `rand()` returns if it is called. A thread that has to
-- wait stays as it is.
unfoldable pub place_turn : ℕ → Place → Thread → Shared → Thread × Shared
unfolding sem_wait sem_post
place_turn rand choose t s =
    (if ltb t.i t.loops then begin_round t (case_of (random_int rand 1 2)) else at t exited, s)
place_turn rand (wait out) t s = sem_wait out t s
place_turn rand (lock out) t s =
    if s.locked then (t, s) else (at t (load out), record s { locked = true })
place_turn rand (load out) t s = (at t (store out s.glob), s)
place_turn rand (store out n) t s = (at t (format out), record s { glob = n + 1 })
place_turn rand (format out) t s = (at t (unlock out s.glob), s)
place_turn rand (unlock out n) t s = (at t (write out n), record s { locked = false })
place_turn rand (write out n) t s = (
  at t (post out),
  record s { files = file_handle_write s.files (output_name out) (line_text t.thread_id n) },
)
place_turn rand (post out) t s = (next_round t, sem_post out s)
place_turn rand exited t s = (t, s)

unfoldable pub thread_turn : ℕ → Thread → Shared → Thread × Shared
unfolding place_turn
thread_turn rand t s = place_turn rand t.place t s

-- The turn of the thread with this index.
unfoldable pub turn : ℕ → ℕ → List Thread → Shared → List Thread × Shared
unfolding thread_turn
turn k rand [] s = ([], s)
turn zero rand (t ∷ ts) s = let r = thread_turn rand t s in (r.0 ∷ ts, r.1)
turn (suc k) rand (t ∷ ts) s = let r = turn k rand ts s in (t ∷ r.0, r.1)

-- Any schedule: who moves, and the random number that is drawn then.
unfoldable pub run : List (ℕ × ℕ) → List Thread → Shared → List Thread × Shared
unfolding turn
run [] ts s = (ts, s)
run ((k, rand) ∷ turns) ts s = let r = turn k rand ts s in run turns r.0 r.1

-- `main`: `count` threads, from this number on, each with five rounds.
unfoldable pub start_threads : ℕ → ℕ → List Thread
start_threads first zero = []
start_threads first (suc count) =
    record { thread_id = first; loops = 5; i = 0; place = choose } ∷ start_threads (first + 1) count

-- `init_semaphore` and the mutex
abbrev pub init : Files → Shared
init files = record { glob = 0; locked = false; sem1 = 1; sem2 = 1; files = files }
