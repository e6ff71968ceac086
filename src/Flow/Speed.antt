-- ===== src/Flow/Speed.antt =====
-- The two tests of Mini-Project/Application/main.c without HTTPS, one behind the other, by
-- `speedtest_download` and `speedtest_upload`.
use gemtek_sw_training.Prelude.{replicate, All, ℕ, ◌≡◌, refl, true, List, [], ◌∷◌}
use gemtek_sw_training.Transfer.{Worker, ServerAt, scan_request_url, download_request_url}
use gemtek_sw_training.Speedtest.Double.{Double}
use gemtek_sw_training.Speedtest.Server.{ServerData}
use gemtek_sw_training.Pool.{Job, Slot, Pool, returned, Turn, init, run}
use gemtek_sw_training.Pool.Jobs.{download_job, upload_job}
use gemtek_sw_training.Pool.Total.{counter}
use gemtek_sw_training.Pool.Schedules.{IsIdle}
use gemtek_sw_training.Pool.Tidy.{download_job-IsTidy, all_idle}
use gemtek_sw_training.Pool.Join.{HasEnded, returned_all_ended}

module _ {F : Double} where
  abbrev pub download_at : ServerData F → ServerAt
  download_at s = record {
    servinfo = s.servinfo;
    domain_name = s.domain_name;
    request_url = download_request_url s.url;
  }

  abbrev pub upload_at : ServerData F → ServerAt
  upload_at s = record {
    servinfo = s.servinfo;
    domain_name = s.domain_name;
    request_url = scan_request_url s.url;
  }

  -- Each of the two functions joins its threads; `thread_all_stop` is reset between them.
  abbrev pub speedtest_download : ServerData F → List Turn → List Worker → ℕ → Pool download_job
  speedtest_download s turns ws total_dl_size =
      run download_job true (download_at s) turns (init download_job ws total_dl_size)

  abbrev pub speedtest_upload : ServerData F → List Turn → List Worker → ℕ → Pool upload_job
  speedtest_upload s turns ws total_ul_size =
      run upload_job true (upload_at s) turns (init upload_job ws total_ul_size)

abbrev pub workers : {J : Job} → List (Slot J) → List Worker
workers [] = []
workers (t ∷ ts) = t.worker ∷ workers ts

-- `thread` has static storage: every element is 0 at first.
abbrev pub zero_worker : Worker
zero_worker = record {
  thread_index = 0;
  running = 0;
  domain_name = [];
  request_url = [];
  servinfo = record { sin_family = 0; sin_port = 0; sin_addr = 0 };
}

abbrev pub thread_number : ℕ
thread_number = 3

module _ {F : Double} where
  -- Both tests, each under its own schedule.
  abbrev pub speed_test : ServerData F → List Turn → List Turn → Pool download_job × Pool upload_job
  speed_test s dl_turns ul_turns =
      let dl = speedtest_download s dl_turns (replicate thread_number zero_worker) 0 in
      (dl, speedtest_upload s ul_turns (workers dl.slots) 0)

workers-IsIdle :
    {J : Job} (ts : List (Slot J))
    → All (λ (t : Slot J). t.worker.running ≡ 0) ts
    → All (IsIdle J) (workers ts)
workers-IsIdle [] h = tt
workers-IsIdle (t ∷ ts) (e, h) = (e, workers-IsIdle ts h)

-- If both functions return, in any schedules: no thread of the download is left to run during the
-- upload; every thread of the upload has ended too; and each of the two totals is the value of a counter
-- that every received or sent piece is added to at once, from 0 on.
pub speed_test_totals :
    {F : Double} (s : ServerData F) (dl_turns ul_turns : List Turn)
    → (speed_test s dl_turns ul_turns).0.main ≡ returned
    → (speed_test s dl_turns ul_turns).1.main ≡ returned
    → All (HasEnded download_job) (speed_test s dl_turns ul_turns).0.slots
      × All (HasEnded upload_job) (speed_test s dl_turns ul_turns).1.slots
      × ((speed_test s dl_turns ul_turns).0.shared.total
          ≡ counter download_job true
              (download_at s)
              dl_turns
              (init download_job (replicate thread_number zero_worker) 0)
              0)
      × ((speed_test s dl_turns ul_turns).1.shared.total
          ≡ counter upload_job true
              (upload_at s)
              ul_turns
              (init upload_job (workers (speed_test s dl_turns ul_turns).0.slots) 0)
              0)
speed_test_totals s dl_turns ul_turns d u =
    let (ended, counted) =
      returned_all_ended download_job (download_at s) dl_turns (replicate thread_number zero_worker)
        0 (refl, (refl, (refl, tt))) d in
    let idle =
      all_idle download_job download_job-IsTidy true (download_at s) dl_turns
        (replicate thread_number zero_worker) 0 ended in
    let (ended', counted') =
      returned_all_ended upload_job (upload_at s) ul_turns
        (workers (speed_test s dl_turns ul_turns).0.slots) 0
        (workers-IsIdle (speed_test s dl_turns ul_turns).0.slots idle) u in
    (ended, ended', counted, counted')
