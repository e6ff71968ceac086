-- ===== src/Threads/Text.antt =====
-- What the two files hold.
use gemtek_sw_training.Prelude.{ℕ, zero, suc, ◌≡◌, refl, List, [], ◌∷◌, ◌++◌, arith, Bytes}
use gemtek_sw_training.FileHandle.{Files, file_handle_write}
use gemtek_sw_training.Threads.{
  one, two, output_name, line_text, Place, choose, wait, lock, load, store, format, unlock, write,
  post, exited, Thread, Shared, thread_turn, place_turn, sem_wait, sem_post, turn,
}
use gemtek_sw_training.CString.{str_eq}
use gemtek_sw_training.FileHandle.LastLine.{contents, write-contents}
use gemtek_sw_training.Threads.Numbers.{Log, Logs, logged_at, turn_logs}

-- What a file holds that held `start` before the lines of a log.
unfoldable pub text : Bytes → Log → Bytes
text start [] = start
text start ((thread_id, n) ∷ l) = text start l ++ line_text thread_id n

-- Each of the two files holds the lines of its log.
pub record Texts (old : Files) (s : Shared) (ls : Logs) : Type 0 where
  pub first :
      contents (s.files (output_name one)) ≡ text (contents (old (output_name one))) ls.first
  pub second :
      contents (s.files (output_name two)) ≡ text (contents (old (output_name two))) ls.second

write-one :
    (fs : Files) (t : Bytes)
    → file_handle_write fs (output_name one) t (output_name two) ≡ fs (output_name two)
unfolding file_handle_write str_eq
write-one fs t = refl

write-two :
    (fs : Files) (t : Bytes)
    → file_handle_write fs (output_name two) t (output_name one) ≡ fs (output_name one)
unfolding file_handle_write str_eq
write-two fs t = refl

thread-Texts :
    (rand : ℕ) (p : Place) (t : Thread) (old : Files) (s : Shared) (ls : Logs)
    → Texts old s ls
    → Texts old (place_turn rand p t s).1 (logged_at p t.thread_id ls)
unfolding place_turn sem_wait sem_post text
thread-Texts rand choose t old s ls h = h
thread-Texts rand (wait one) t old s ls h = record { first = ground arith; second = ground arith }
thread-Texts rand (wait two) t old s ls h = record { first = ground arith; second = ground arith }
thread-Texts rand (lock out) t old s ls h = record { first = ground arith; second = ground arith }
thread-Texts rand (load out) t old s ls h = h
thread-Texts rand (store out n) t old s ls h = record { first = h.first; second = h.second }
thread-Texts rand (format out) t old s ls h = h
thread-Texts rand (unlock out n) t old s ls h = record { first = h.first; second = h.second }
thread-Texts rand (write one n) t old s ls h = record {
  first = rw (write-contents s.files (output_name one) (line_text t.thread_id n), h.first) refl;
  second = rw (write-one s.files (line_text t.thread_id n)) h.second;
}
thread-Texts rand (write two n) t old s ls h = record {
  first = rw (write-two s.files (line_text t.thread_id n)) h.first;
  second = rw (write-contents s.files (output_name two) (line_text t.thread_id n), h.second) refl;
}
thread-Texts rand (post one) t old s ls h = record { first = h.first; second = h.second }
thread-Texts rand (post two) t old s ls h = record { first = h.first; second = h.second }
thread-Texts rand exited t old s ls h = h

pub turn-Texts :
    (k rand : ℕ) (old : Files) (ts : List Thread) (s : Shared) (ls : Logs)
    → Texts old s ls
    → Texts old (turn k rand ts s).1 (turn_logs k ts ls)
unfolding turn thread_turn turn_logs
turn-Texts k rand old [] s ls h = h
turn-Texts zero rand old (t ∷ ts) s ls h = thread-Texts rand t.place t old s ls h
turn-Texts (suc k) rand old (t ∷ ts) s ls h = turn-Texts k rand old ts s ls h
