-- ===== src/Transfer.antt =====
-- Mini-Project/Application/src/speedtest_download.c and speedtest_upload.c: the workers, what they
-- request, and the totals. What the system calls return is an argument.
pub mod Totals
pub mod Urls
pub mod Requested
pub mod Buffers
pub mod Speed
use gemtek_sw_training.Prelude.{
  ◌==◌, if◌then◌else◌, length, ℕ, zero, suc, ◌+◌, ◌*◌, Bool, true, false, ℤ, pos, negsuc, lt_ℤ,
  eq_ℤ, Option, none, some, List, [], ◌∷◌, ◌++◌, Bytes, codes,
}
use gemtek_sw_training.CString.{find_text, tokens}
use gemtek_sw_training.CString.Format.{is_space, skip_space}
use gemtek_sw_training.Speedtest.Server.{SockAddr}
use gemtek_sw_training.Speedtest.Best.{behind, before_slash}
use gemtek_sw_training.Http.{
  has_port, Round, Received, failed, closed, chunk, build_http_get, build_http_post, make_request,
}

-- `thread_t`
pub record Worker : Type 0 where
  pub thread_index : ℕ
  pub running : ℕ
  pub domain_name : Bytes
  pub request_url : Bytes
  pub servinfo : SockAddr

-- `%s`: the bytes up to the next white space.
unfoldable pub word : Bytes → Bytes
word [] = []
word (c ∷ s) = let rest = word s in if is_space c then [] else c ∷ rest

unfoldable pub after_slash : Bytes → Bytes
after_slash [] = []
after_slash (c ∷ s) = let rest = after_slash s in if c == b'/' then s else rest

-- `sscanf(url, "http://%[^/]/%s", dummy, request_url)`: without a host nothing is stored.
unfoldable pub scan_request_url : Bytes → Bytes
unfolding behind before_slash word after_slash
scan_request_url url = elim (behind (codes "http://") url) [
  | none ↦ []
  | some s ↦ elim (before_slash s) [ [] ↦ [] | c ∷ host ↦ word (skip_space (after_slash s)) ]
]

abbrev pub download_filename : Bytes
download_filename = codes "random3500x3500.jpg"

abbrev pub piece : Bytes → Bytes
piece buf =
    if has_port (find_text (codes "upload.") buf) then download_filename else buf ++ b'/' ∷ []

unfoldable pub join_pieces : List Bytes → Bytes → Bytes
unfolding find_text
join_pieces [] request_url = request_url
join_pieces (buf ∷ bufs) request_url = join_pieces bufs (request_url ++ piece buf)

unfoldable pub download_request_url : Bytes → Bytes
unfolding join_pieces scan_request_url tokens
download_request_url url = join_pieces (tokens b'/' (scan_request_url url)) []

-- What is copied into each worker.
pub record ServerAt : Type 0 where
  pub servinfo : SockAddr
  pub domain_name : Bytes
  pub request_url : Bytes

-- The `for` loop that starts the workers: the workers, and the indices for which a thread is created.
unfoldable pub start_workers : ℕ → ServerAt → List Worker → List Worker × List ℕ
start_workers i server [] = ([], [])
start_workers i server (w ∷ ws) =
    let rest = start_workers (i + 1) server ws in
    let copied = record w {
      servinfo = server.servinfo;
      domain_name = server.domain_name;
      request_url = server.request_url;
    } in
    if w.running == 0
    then (record copied { thread_index = i; running = 1 } ∷ rest.0, i ∷ rest.1)
    else (copied ∷ rest.0, rest.1)

-- One round of a worker, with the value that `thread_all_stop` has at its end.
pub record Beat : Type 0 where
  pub round : Round
  pub stop : Bool

-- The `while (1)` of `download_thread`: the total, and whether the loop has ended.
unfoldable pub download_loop : List Beat → ℕ → ℕ × Bool
download_loop [] total_dl_size = (total_dl_size, false)
download_loop (b ∷ beats) total_dl_size =
    let skipped = download_loop beats total_dl_size in
    let next : ℕ × Bool = elim b.round.received [
      | failed ↦ (total_dl_size, true)
      | closed ↦ (total_dl_size, true)
      | chunk rbuf ↦
          let more = download_loop beats (total_dl_size + length rbuf) in
          if b.stop then (total_dl_size + length rbuf, true) else more
    ] in
    if b.round.selected then next else skipped

-- `fd` is what `init_connection` returned, `sent` what `send` returns. The worker and the total when
-- the thread ends.
unfoldable pub download_thread : ℤ → ℤ → List Beat → Worker → ℕ → Option (Worker × ℕ)
unfolding download_loop
download_thread fd sent beats w total_dl_size =
    let stopped = record w { running = 0 } in
    if lt_ℤ (pos 0) fd
    then (if eq_ℤ (make_request sent (build_http_get w.domain_name w.request_url)) (negsuc 0)
        then some (stopped, total_dl_size)
        else (let r = download_loop beats total_dl_size in
            if r.1 then some (stopped, r.0) else none))
    else some (stopped, total_dl_size)

-- The same over SSL; `ret` and `bytes_sent` are what `SSL_connect` and `SSL_write` return. The two
-- returns before the loop leave `running` at 1.
unfoldable pub https_download_thread : ℤ → ℤ → ℤ → List Beat → Worker → ℕ → Option (Worker × ℕ)
unfolding download_loop
https_download_thread fd ret bytes_sent beats w total_dl_size =
    let stopped = record w { running = 0 } in
    if lt_ℤ (pos 0) fd
    then (if lt_ℤ (pos 0) ret
        then (if lt_ℤ (pos 0) bytes_sent
            then (let r = download_loop beats total_dl_size in
                if r.1 then some (stopped, r.0) else none)
            else some (w, total_dl_size))
        else some (w, total_dl_size))
    else some (stopped, total_dl_size)

abbrev pub ul_buffer_size : ℕ
ul_buffer_size = 8192

abbrev pub ul_buffer_times : ℕ
ul_buffer_times = 10240

-- `build_http_post(sbuf, thread[i].request_url, thread[i].domain_name, …)`, whose parameters are the
-- domain name and the request URL.
unfoldable pub upload_request : Worker → Bytes
upload_request w = build_http_post w.request_url w.domain_name (ul_buffer_size * ul_buffer_times)

-- The `for` loop of `upload_thread` over what `send` returns and what `thread_all_stop` then is: the
-- total, and whether all buffers were sent.
unfoldable pub upload_loop : ℕ → List (ℤ × Bool) → ℕ → ℕ × Bool
upload_loop zero sends total_ul_size = (total_ul_size, true)
upload_loop (suc times) [] total_ul_size = (total_ul_size, false)
upload_loop (suc times) ((size, stop) ∷ sends) total_ul_size =
    let next = upload_loop times sends (total_ul_size + ul_buffer_size) in
    if eq_ℤ size (pos ul_buffer_size)
    then (if stop then (total_ul_size + ul_buffer_size, false) else next)
    else (total_ul_size, false)

-- What the thread leaves in the total, and its worker; `size` is 0 where the request is counted.
unfoldable pub upload_thread : ℤ → List (ℤ × Bool) → Worker → ℕ → Worker × ℕ
unfolding upload_loop
upload_thread fd sends w total_ul_size =
    let stopped = record w { running = 0 } in
    if lt_ℤ (pos 0) fd
    then (stopped, (upload_loop ul_buffer_times sends (total_ul_size + 0)).0)
    else (stopped, total_ul_size)
