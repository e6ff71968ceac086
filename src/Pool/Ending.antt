-- ===== src/Pool/Ending.antt =====
-- The threads of the speed tests come to their ends when their calls fail and `thread_all_stop` is set.
use gemtek_sw_training.Prelude.{
  ltb, ne→==_false, Bool-cases, length, ℕ, ◌+◌, ◌≡◌, refl, inl, inr, true, negsuc, arith, Bytes,
}
use gemtek_sw_training.Transfer.{Worker, ul_buffer_times}
use gemtek_sw_training.Http.{init_connection, make_request, build_http_get}
use gemtek_sw_training.Pool.Jobs.{
  Download, connecting, requesting, receiving, check_stop, received, download_step, download_job,
  Upload, dialing, heading, sending, sent_one, waiting, send_buffer, answered, upload_step,
  upload_job,
}
use gemtek_sw_training.Pool.Drain.{dead, Stops, Lower}

refused : (sbuf : Bytes) → make_request (negsuc 0) sbuf ≡ negsuc 0
unfolding make_request
refused sbuf = rw (ne→==_false 0 (length sbuf + 1) (omega arith)) refl

download-Lower :
    (w : Worker) (l : Download) → Lower (λ (m : Download). 0) (download_step w dead true l) 0
unfolding download_step init_connection received
download-Lower w connecting = tt
download-Lower w requesting = rw (refused (build_http_get w.domain_name w.request_url)) tt
download-Lower w receiving = tt
download-Lower w check_stop = tt

pub download_job-Stops : Stops download_job
download_job-Stops = record { left = λ l. 0; lower = download-Lower }

-- The sends that are left are at most one, and then an answer.
abbrev left_of : Upload → ℕ
left_of dialing = 0
left_of heading = 2
left_of (sending j) = 1
left_of (sent_one j) = 0
left_of waiting = 0

upload-Lower : (w : Worker) (l : Upload) → Lower left_of (upload_step w dead true l) (left_of l)
unfolding upload_step init_connection send_buffer answered
upload-Lower w dialing = tt
upload-Lower w heading = omega arith
upload-Lower w (sending j) = elim (Bool-cases (ltb j ul_buffer_times)) [
  | inl e ↦ rw (e, send_buffer) tt
  | inr e ↦ rw (e, send_buffer) (omega arith)
]
upload-Lower w (sent_one j) = tt
upload-Lower w waiting = tt

pub upload_job-Stops : Stops upload_job
upload_job-Stops = record { left = left_of; lower = upload-Lower }
