-- ===== src/Transfer/Speed.antt =====
-- `calculate_dl_speed_thread` and `calculate_ul_speed_thread` of src/speedtest_download.c,
-- src/speedtest_upload.c and Mini-Project/Ref/main.c: the speeds that they show.
use gemtek_sw_training.Prelude.{
  if◌then◌else◌, ℕ, Bool, true, false, not, ◌&&◌, pos, List, [], ◌∷◌, ◌++◌,
}
use gemtek_sw_training.Speedtest.Double.{Double}

module _ (F : Double) where
  open F use {Number, of_int, sub, mul, div, le}

  -- One round: the uptime and the total at its start, `thread_all_stop`, and the uptime and the total
  -- that are read once more where it is set.
  pub record Tick : Type 0 where
    pub uptime : Number
    pub total : ℕ
    pub stop : Bool
    pub last_uptime : Number
    pub last_total : ℕ

  -- `total / 1000 / 1000 / duration * 8`
  abbrev pub speed : ℕ → Number → Number
  speed total duration =
      mul (div (div (div (of_int (pos total)) (of_int (pos 1000))) (of_int (pos 1000))) duration)
        (of_int (pos 8))

  -- `duration > 0` and `duration != 0` by `<=`, with which NaN is neither above 0 nor equal to it
  abbrev pub is_positive : Number → Bool
  is_positive d = le (of_int (pos 0)) d && not (le d (of_int (pos 0)))

  abbrev pub is_nonzero : Number → Bool
  is_nonzero d = not (le (of_int (pos 0)) d && le d (of_int (pos 0)))

  abbrev pub shown : (Number → Bool) → ℕ → Number → List Number
  shown test total duration = if test duration then speed total duration ∷ [] else []

  -- The speeds that are printed, and whether the loop has ended. `last_test` guards the last of them.
  unfoldable pub speed_loop : (Number → Bool) → Number → List Tick → List Number × Bool
  speed_loop last_test start [] = ([], false)
  speed_loop last_test start (t ∷ ticks) =
      let first = shown is_positive t.total (sub t.uptime start) in
      let last = shown last_test t.last_total (sub t.last_uptime start) in
      let rest = speed_loop last_test start ticks in
      if t.stop then (first ++ last, true) else (first ++ rest.0, rest.1)

  unfoldable pub calculate_dl_speed_thread : Number → List Tick → List Number × Bool
  unfolding speed_loop
  calculate_dl_speed_thread start_dl_time ticks = speed_loop is_positive start_dl_time ticks

  -- The last test is `if (duration)`.
  unfoldable pub calculate_ul_speed_thread : Number → List Tick → List Number × Bool
  unfolding speed_loop
  calculate_ul_speed_thread start_ul_time ticks = speed_loop is_nonzero start_ul_time ticks
