-- ===== src/Ref/Jobs.antt =====
-- The bodies of the threads of Mini-Project/Ref/main.c.
use gemtek_sw_training.Prelude.{
  if◌then◌else◌, length, ◌+◌, ◌*◌, Bool, not, ◌&&◌, pos, negsuc, eq_ℤ, Bytes,
}
use gemtek_sw_training.Http.{build_http_get, build_http_post}
use gemtek_sw_training.Transfer.{Worker, ul_buffer_size, ul_buffer_times}
use gemtek_sw_training.Pool.{Input, Action, go, count, leave, Job}
use gemtek_sw_training.Pool.Jobs.{
  Download, connecting, requesting, receiving, check_stop, received, Upload, dialing, heading,
  sending, sent_one, waiting, send_buffer, answered,
}

-- `socket` and `connect` are compared with -1 only.
unfoldable pub is_connected : Input → Bool
is_connected inp = not (eq_ℤ inp.sockfd (negsuc 0)) && not (eq_ℤ inp.status (negsuc 0))

unfoldable pub download_step : Worker → Input → Bool → Download → Action Download
unfolding is_connected received
download_step w inp stop connecting = if is_connected inp then go requesting else leave
download_step w inp stop requesting =
    if eq_ℤ inp.sent (pos (length (build_http_get w.domain_name w.request_url)))
    then go receiving
    else leave
download_step w inp stop receiving = received inp.round
download_step w inp stop check_stop = if stop then leave else go receiving

abbrev pub download_job : Job
download_job = record { Local = Download; start = connecting; step = download_step }

-- The header, with the request URL behind `POST /`.
unfoldable pub upload_request : Worker → Bytes
upload_request w = build_http_post w.domain_name w.request_url (ul_buffer_size * ul_buffer_times)

unfoldable pub upload_step : Worker → Input → Bool → Upload → Action Upload
unfolding is_connected answered send_buffer upload_request
upload_step w inp stop dialing = if is_connected inp then go heading else leave
upload_step w inp stop heading =
    let size = length (upload_request w) in
    if eq_ℤ inp.sent (pos size) then count size (sending 0) else leave
upload_step w inp stop (sending j) = send_buffer j inp.sent
upload_step w inp stop (sent_one j) = if stop then leave else go (sending (j + 1))
upload_step w inp stop waiting = answered inp.round

abbrev pub upload_job : Job
upload_job = record { Local = Upload; start = dialing; step = upload_step }
