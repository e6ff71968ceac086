-- ===== src/Tests/Pools.antt =====
-- The theorems on pools of threads, and on the program as a whole, at concrete inputs.
use gemtek_sw_training.Prelude.{
  length, update, sum, replicate, All, ◌+◌, ◌≤◌, ◌≡◌, refl, ◌≢◌, true, false, pos, List, [], ◌∷◌,
  ◌++◌, arith, codes,
}
use gemtek_sw_training.Http.{failed, chunk, build_http_get, make_request, init_connection}
use gemtek_sw_training.Transfer.{Worker, ServerAt}
use gemtek_sw_training.CString.{find_text, tokens, starts_with}
use gemtek_sw_training.CString.Format.{skip_space}
use gemtek_sw_training.Speedtest.Best.{behind}
use gemtek_sw_training.Speedtest.Server.{ServerData, zero_server}
use gemtek_sw_training.Transfer.{word, scan_request_url, join_pieces, download_request_url}
use gemtek_sw_training.Flow.Speed.{
  download_at, upload_at, workers, zero_worker, thread_number, speed_test, speed_test_totals,
}
use gemtek_sw_training.Tests.Servers.{toy}
use gemtek_sw_training.Pool.{
  Main, starting, Input, Pool, Turn, main_runs, thread_runs, alarm, returned, act, place_turn,
  thread_turn, turn_at, start_slot, can_join, main_turn, turn, run, init,
}
use gemtek_sw_training.Pool.Jobs.{
  received, download_step, download_job, upload_step, send_buffer, upload_job,
}
use gemtek_sw_training.Ref.Jobs as Earlier
use gemtek_sw_training.Pool.Mutex.{has_lock}
use gemtek_sw_training.Pool.Total.{owes, counter}
use gemtek_sw_training.Pool.Schedules.{total_refines_counter}
use gemtek_sw_training.Pool.Join.{HasEnded}
use gemtek_sw_training.Pool.Return.{can_return}
use gemtek_sw_training.Pool.Ending.{download_job-Stops}
use gemtek_sw_training.Pool.Https.{https_download_step, https_download_job, IsLostAt}
use gemtek_sw_training.Flow.Lost.{IsShakingAt, failed_handshake_lost}
use gemtek_sw_training.Pool.Leaks.{leaked}
use gemtek_sw_training.Pool.Refused.{sockets_pile_up}
use gemtek_sw_training.Pool.Stalled.{Receives, stalled_never_returns}

abbrev address : ServerAt
address = record {
  servinfo = record { sin_family = 2; sin_port = 80; sin_addr = 7 };
  domain_name = codes "a";
  request_url = codes "f";
}

abbrev idle_worker : Worker
idle_worker = record {
  thread_index = 0;
  running = 0;
  domain_name = [];
  request_url = [];
  servinfo = record { sin_family = 0; sin_port = 0; sin_addr = 0 };
}

-- A connection that is made, a request that is sent (61 bytes), and a round with three bytes.
abbrev good : Input
good = record {
  sockfd = pos 3;
  status = pos 0;
  sent = pos (length (build_http_get (codes "a") (codes "f")));
  ssl_status = pos 1;
  ssl_sent = pos 61;
  round = record { selected = true; received = chunk (codes "xyz") };
}

abbrev silent : Input
silent = record {
  sockfd = pos 3;
  status = pos 0;
  sent = pos 0;
  ssl_status = pos 0;
  ssl_sent = pos 0;
  round = record { selected = false; received = failed };
}

-- Two threads. The first connects, asks, receives, and stands before the lock.
abbrev opening : List Turn
opening = main_runs ∷ main_runs ∷ main_runs ∷ replicate 3 (thread_runs 0 good)

total_refines_counter_example :
    (sum
          (owes download_job)
          (run download_job true address opening
            (init download_job (replicate 2 idle_worker) 10)).slots
        + (run download_job true address opening
            (init download_job (replicate 2 idle_worker) 10)).shared.total
      ≡ counter download_job true address opening
          (init download_job (replicate 2 idle_worker) 10)
          10)
    × (sum
          (has_lock download_job)
          (run download_job true address opening
            (init download_job (replicate 2 idle_worker) 10)).slots
        ≤ 1)
total_refines_counter_example =
    total_refines_counter download_job true address opening (replicate 2 idle_worker) 10
      (refl, (refl, tt))

can_return_example :
    (more : List Turn) × ((run download_job true address
        (opening ++ more)
        (init download_job (replicate 2 idle_worker) 10)).main
      ≡ returned)
can_return_example =
    can_return download_job address opening (replicate 2 idle_worker) 10 download_job-Stops
      (refl, (refl, tt))

-- The first thread adds its bytes; then the timer goes off, and both come to their ends.
abbrev whole : List Turn
whole =
    opening
    ++ (replicate 4 (thread_runs 0 good)
        ++ (alarm
            ∷ main_runs
            ∷ thread_runs 0 good
            ∷ thread_runs 0 good
            ∷ thread_runs 1 silent
            ∷ thread_runs 1 silent
            ∷ thread_runs 1 silent
            ∷ replicate 3 main_runs))

whole-returned :
    (run download_job true address whole (init download_job (replicate 2 idle_worker) 10)).main
    ≡ returned
unfolding run turn main_turn start_slot update can_join turn_at thread_turn place_turn act
    download_step init_connection make_request received build_http_get
whole-returned = refl

-- The first thread waits for data when the timer goes off.
abbrev asked : List Turn
asked = main_runs ∷ main_runs ∷ main_runs ∷ replicate 2 (thread_runs 0 good)

abbrev quiet : List Turn
quiet =
    alarm
    ∷ main_runs
    ∷ thread_runs 0 silent
    ∷ thread_runs 1 silent
    ∷ main_runs
    ∷ thread_runs 0 silent
    ∷ []

asked-Receives :
    Receives 0
      (run download_job true address asked (init download_job (replicate 2 idle_worker) 10)).slots
unfolding Receives run turn main_turn start_slot update turn_at thread_turn place_turn act
    download_step init_connection make_request build_http_get
asked-Receives = refl

stalled_never_returns_example :
    ◌≢◌ {A = Main}
      (run download_job true address
        (asked ++ quiet)
        (init download_job (replicate 2 idle_worker) 10)).main
      returned
stalled_never_returns_example =
    stalled_never_returns address asked quiet (replicate 2 idle_worker) 10 0 (refl, (refl, tt))
      asked-Receives (tt, (tt, (refl, (refl, (tt, (refl, tt))))))

abbrev best : ServerData toy
best = record (zero_server toy) { url = codes "http://a/upload.php"; domain_name = codes "a" }

-- Three threads; the calls of two of them fail.
abbrev dl_turns : List Turn
dl_turns =
    replicate 4 main_runs
    ++ (replicate 2 (thread_runs 0 (record good { sent = pos 79 }))
        ++ (replicate 5 (thread_runs 0 good)
            ++ (alarm
                ∷ main_runs
                ∷ thread_runs 0 good
                ∷ thread_runs 0 good
                ∷ (replicate 3 (thread_runs 1 silent)
                    ++ (replicate 3 (thread_runs 2 silent) ++ replicate 4 main_runs)))))

abbrev buffer : Input
buffer = record good { sent = pos 8192 }

-- The first thread sends one buffer before the timer goes off.
abbrev ul_turns : List Turn
ul_turns =
    replicate 4 main_runs
    ++ (replicate 11 (thread_runs 0 buffer)
        ++ (alarm
            ∷ main_runs
            ∷ thread_runs 0 buffer
            ∷ thread_runs 0 buffer
            ∷ (replicate 8 (thread_runs 1 silent)
                ++ (replicate 8 (thread_runs 2 silent) ++ replicate 4 main_runs))))

dl-returned : (speed_test best dl_turns ul_turns).0.main ≡ returned
unfolding run turn main_turn start_slot update can_join turn_at thread_turn place_turn act
    download_step init_connection make_request received build_http_get download_request_url
    scan_request_url join_pieces tokens behind find_text word skip_space starts_with
dl-returned = refl

ul-returned : (speed_test best dl_turns ul_turns).1.main ≡ returned
unfolding run turn main_turn start_slot update can_join turn_at thread_turn place_turn act
    upload_step send_buffer init_connection make_request received build_http_get
    download_request_url scan_request_url download_step join_pieces tokens behind find_text word
    skip_space starts_with
ul-returned = refl

speed_test_totals_example :
    All (HasEnded download_job) (speed_test best dl_turns ul_turns).0.slots
    × All (HasEnded upload_job) (speed_test best dl_turns ul_turns).1.slots
    × ((speed_test best dl_turns ul_turns).0.shared.total
        ≡ counter download_job true
            (download_at best)
            dl_turns
            (init download_job (replicate thread_number zero_worker) 0)
            0)
    × ((speed_test best dl_turns ul_turns).1.shared.total
        ≡ counter upload_job true
            (upload_at best)
            ul_turns
            (init upload_job (workers (speed_test best dl_turns ul_turns).0.slots) 0)
            0)
speed_test_totals_example = speed_test_totals best dl_turns ul_turns dl-returned ul-returned

-- In Mini-Project/Ref the function returns while a thread is still running, and it goes on when
-- `thread_all_stop` has been reset for the upload.
abbrev left_running : Pool Earlier.download_job
left_running =
    run Earlier.download_job false address
      (main_runs ∷ main_runs ∷ thread_runs 0 good ∷ alarm ∷ main_runs ∷ [])
      (init Earlier.download_job (replicate 1 idle_worker) 0)

left_running-returned : left_running.main ≡ returned
unfolding run turn main_turn start_slot update turn_at thread_turn place_turn act
    Earlier.download_step Earlier.is_connected
left_running-returned = refl

left_running-counts :
    (run Earlier.download_job false address
      (replicate 5 (thread_runs 0 good))
      (record left_running { stop = false })).shared.total
    ≡ 3
unfolding run turn main_turn start_slot update turn_at thread_turn place_turn act
    Earlier.download_step Earlier.is_connected received build_http_get
left_running-counts = refl

-- The first thread has connected, and its handshake fails.
abbrev connected : Pool https_download_job
connected =
    run https_download_job true address (main_runs ∷ main_runs ∷ thread_runs 0 good ∷ [])
      (init https_download_job (replicate 1 idle_worker) 0)

connected-IsShakingAt : IsShakingAt 0 connected.slots
unfolding IsShakingAt run turn main_turn start_slot update turn_at thread_turn place_turn act
    https_download_step init_connection
connected-IsShakingAt = (refl, omega arith)

failed_handshake_lost_example :
    IsLostAt upload_job 0
      (run upload_job true address ul_turns (
        init upload_job
          (workers
            (run https_download_job true address (thread_runs 0 silent ∷ dl_turns) connected).slots)
          7)).slots
failed_handshake_lost_example =
    failed_handshake_lost address address silent dl_turns ul_turns connected 0 7
      connected-IsShakingAt refl

-- The kernel gives out the next descriptor each time.
sockets_pile_up_example :
    (turns : List Turn) × (leaked true
        (download_at best)
        turns
        (init download_job (replicate thread_number zero_worker) 0)
      ≡ pos 4 ∷ pos 5 ∷ pos 6 ∷ [])
    × ((run download_job true
          (download_at best)
          turns
          (init download_job (replicate thread_number zero_worker) 0)).main
        ≡ starting 0)
sockets_pile_up_example =
    sockets_pile_up true (download_at best) (pos 4 ∷ pos 5 ∷ pos 6 ∷ []) zero_worker
      (replicate 2 zero_worker) 0 (refl, (refl, (refl, tt))) refl
