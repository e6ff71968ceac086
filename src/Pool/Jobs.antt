-- ===== src/Pool/Jobs.antt =====
-- The bodies of the threads: `download_thread` and `upload_thread` of src/speedtest_download.c and
-- src/speedtest_upload.c.
use gemtek_sw_training.Prelude.{
  ltb, if◌then◌else◌, length, ℕ, ◌+◌, Bool, ℤ, pos, negsuc, lt_ℤ, eq_ℤ,
}
use gemtek_sw_training.Http.{
  Round, Received, failed, closed, chunk, init_connection, make_request, build_http_get,
}
use gemtek_sw_training.Transfer.{Worker, ul_buffer_size, ul_buffer_times}
use gemtek_sw_training.Pool.{Input, Action, go, count, leave, Job}

-- Where `download_thread` stands; `check_stop` is the test of `thread_all_stop`.
pub data Download : Type 0 where
  connecting : Download
  requesting : Download
  receiving : Download
  check_stop : Download

abbrev pub after_recv : Received → Action Download
after_recv failed = leave
after_recv closed = leave
after_recv (chunk rbuf) = count (length rbuf) check_stop

-- A round of the `while (1)`.
unfoldable pub received : Round → Action Download
received r = if r.selected then after_recv r.received else go receiving

unfoldable pub download_step : Worker → Input → Bool → Download → Action Download
unfolding init_connection make_request received
download_step w inp stop connecting =
    if lt_ℤ (pos 0) (init_connection inp.sockfd inp.status) then go requesting else leave
download_step w inp stop requesting =
    if eq_ℤ (make_request inp.sent (build_http_get w.domain_name w.request_url)) (negsuc 0)
    then leave
    else go receiving
download_step w inp stop receiving = received inp.round
download_step w inp stop check_stop = if stop then leave else go receiving

abbrev pub download_job : Job
download_job = record { Local = Download; start = connecting; step = download_step }

-- Where `upload_thread` stands: `sending j` and `sent_one j` are the round `j` of the `for` loop, before
-- the `send` and before the test of `thread_all_stop`.
pub data Upload : Type 0 where
  dialing : Upload
  heading : Upload
  sending : ℕ → Upload
  sent_one : ℕ → Upload
  waiting : Upload

abbrev after_answer : Received → Action Upload
after_answer failed = leave
after_answer closed = leave
after_answer (chunk rbuf) = go waiting

-- A round of the `while (1)` behind the `for` loop.
unfoldable pub answered : Round → Action Upload
answered r = if r.selected then after_answer r.received else go waiting

unfoldable pub send_buffer : ℕ → ℤ → Action Upload
send_buffer j sent =
    if ltb j ul_buffer_times
    then (if eq_ℤ sent (pos ul_buffer_size) then count ul_buffer_size (sent_one j) else leave)
    else go waiting

-- `size` is still 0 where the header is counted, and the result of `make_request` is not looked at.
unfoldable pub upload_step : Worker → Input → Bool → Upload → Action Upload
unfolding init_connection answered send_buffer
upload_step w inp stop dialing =
    if lt_ℤ (pos 0) (init_connection inp.sockfd inp.status) then go heading else leave
upload_step w inp stop heading = count 0 (sending 0)
upload_step w inp stop (sending j) = send_buffer j inp.sent
upload_step w inp stop (sent_one j) = if stop then leave else go (sending (j + 1))
upload_step w inp stop waiting = answered inp.round

abbrev pub upload_job : Job
upload_job = record { Local = Upload; start = dialing; step = upload_step }
