-- ===== src/Pool/Leaks.antt =====
-- The sockets that the threads of src/speedtest_download.c leave open, when the server refuses them.
use gemtek_sw_training.Prelude.{ℕ, zero, suc, Bool, not, pos, eq_ℤ, List, [], ◌∷◌, ◌++◌}
use gemtek_sw_training.Http.Sockets.{Fds, left_open}
use gemtek_sw_training.Transfer.{ServerAt}
use gemtek_sw_training.Pool.{
  Input, Place, at, lock, load, store, unlock, finish, gone, lost, Slot, Pool, Turn, main_runs,
  thread_runs, alarm, turn,
}
use gemtek_sw_training.Pool.Jobs.{
  Download, connecting, requesting, receiving, check_stop, download_job,
}

-- What `init_connection` leaves open; the thread does not know the socket of a failed connection.
unfoldable pub leak_local : Download → Input → Fds
leak_local connecting inp = left_open (not (eq_ℤ inp.status (pos 0))) inp.sockfd []
leak_local requesting inp = []
leak_local receiving inp = []
leak_local check_stop inp = []

unfoldable pub leak_place : Place Download → Input → Fds
unfolding leak_local
leak_place (at l) inp = leak_local l inp
leak_place (lock n l) inp = []
leak_place (load n l) inp = []
leak_place (store n v l) inp = []
leak_place (unlock l) inp = []
leak_place finish inp = []
leak_place gone inp = []
leak_place lost inp = []

unfoldable pub leak_at : ℕ → Input → List (Slot download_job) → Fds
unfolding leak_place
leak_at k inp [] = []
leak_at zero inp (t ∷ ts) = leak_place t.place inp
leak_at (suc k) inp (t ∷ ts) = leak_at k inp ts

unfoldable pub leak_turn : Turn → Pool download_job → Fds
unfolding leak_at
leak_turn main_runs p = []
leak_turn (thread_runs k inp) p = leak_at k inp p.slots
leak_turn alarm p = []

-- What is left open in a run, in order.
unfoldable pub leaked : Bool → ServerAt → List Turn → Pool download_job → Fds
unfolding leak_turn
leaked joins server [] p = []
leaked joins server (t ∷ turns) p =
    leak_turn t p ++ leaked joins server turns (turn download_job joins server t p)
