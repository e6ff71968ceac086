-- ===== src/Flow/HandleTime.antt =====
-- Mini-Project/Application/src/handle_time.c.
use gemtek_sw_training.Prelude.{ℕ, negsuc, Option, none, some, Bytes, codes}
use gemtek_sw_training.FileHandle.{Files}
use gemtek_sw_training.Speedtest.Double.{Double}

-- `struct itimerval`, in seconds and microseconds.
pub record Itimerval : Type 0 where
  pub value_sec : ℕ
  pub value_usec : ℕ
  pub interval_sec : ℕ
  pub interval_usec : ℕ

abbrev pub speedtest_duration : ℕ
speedtest_duration = 10

-- What `setitimer` is called with: the timer goes off once.
unfoldable pub set_interval_timer : ℕ → ℕ → Itimerval
set_interval_timer which duration = record {
  value_sec = speedtest_duration;
  value_usec = 0;
  interval_sec = 0;
  interval_usec = 0;
}

module _ (F : Double) (scan_float : Bytes → Option F.Number) where
  -- `scan_float` is what the first `%f` of `fscanf` reads. `none`: nothing is stored, and the variable that is
  -- returned has no value.
  unfoldable pub get_uptime : Files → Option F.Number
  get_uptime fs = elim (fs (codes "/proc/uptime")) [
    | none ↦ some (F.of_int (negsuc 0))
    | some content ↦ scan_float content
  ]
