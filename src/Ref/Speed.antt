-- ===== src/Ref/Speed.antt =====
-- The two tests of Mini-Project/Ref/main.c. The functions that start the threads do not join them.
use gemtek_sw_training.Prelude.{ℕ, Bool, false, List}
use gemtek_sw_training.Transfer.{Worker}
use gemtek_sw_training.Transfer.Speed as Speed
use gemtek_sw_training.Transfer.Speed.{Tick}
use gemtek_sw_training.Speedtest.Double.{Double}
use gemtek_sw_training.Speedtest.Server.{ServerData}
use gemtek_sw_training.Pool.{Pool, Turn, init, run}
use gemtek_sw_training.Pool as Pool
use gemtek_sw_training.Flow.Speed.{download_at, upload_at}
use gemtek_sw_training.Ref.Jobs.{download_job, upload_job}

abbrev pub thread_number : ℕ
thread_number = 4

abbrev pub stop_all_thread : ℕ → Bool → Bool
stop_all_thread signo stop = Pool.stop_all_thread signo stop

module _ {F : Double} where
  abbrev pub speedtest_download : ServerData F → List Turn → List Worker → ℕ → Pool download_job
  speedtest_download s turns ws total_dl_size =
      run download_job false (download_at s) turns (init download_job ws total_dl_size)

  abbrev pub speedtest_upload : ServerData F → List Turn → List Worker → ℕ → Pool upload_job
  speedtest_upload s turns ws total_ul_size =
      run upload_job false (upload_at s) turns (init upload_job ws total_ul_size)

module _ (F : Double) where
  abbrev pub calculate_ul_speed_thread : F.Number → List (Tick F) → List F.Number × Bool
  calculate_ul_speed_thread start_ul_time ticks =
      Speed.calculate_ul_speed_thread F start_ul_time ticks

  abbrev pub calculate_dl_speed_thread : F.Number → List (Tick F) → List F.Number × Bool
  calculate_dl_speed_thread start_dl_time ticks =
      Speed.calculate_dl_speed_thread F start_dl_time ticks
