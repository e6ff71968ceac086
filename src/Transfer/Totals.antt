-- ===== src/Transfer/Totals.antt =====
-- The workers and the totals that they count.
use gemtek_sw_training.Prelude.{
  ◌==◌, if◌then◌else◌, Bool-cases, length, All, length-append, ℕ, zero, suc, ◌+◌, ◌*◌, ◌≤◌, ◌≡◌,
  refl, ap, ◌∙◌, ◌≢◌, inl, inr, Bool, true, false, ℤ, pos, eq_ℤ, some, List, [], ◌∷◌, ◌++◌, arith,
  Bytes, codes,
}
use gemtek_sw_training.Http.{Received, failed, closed, chunk}
use gemtek_sw_training.CString.Search.{Lacks}
use gemtek_sw_training.CString.Format.{decimal}
use gemtek_sw_training.Http.{crlf}
use gemtek_sw_training.Http.Body.{concat}
use gemtek_sw_training.Http.Requests.{read_head, post_marker, read_head-build_http_post}
use gemtek_sw_training.Transfer.{
  Worker, ServerAt, start_workers, Beat, download_loop, ul_buffer_size, upload_loop, upload_request,
}

abbrev pub IsStarted : ServerAt → Worker → Type 0
IsStarted server w =
    (w.running ≢ 0)
    × (w.request_url ≡ server.request_url)
    × (w.domain_name ≡ server.domain_name)
    × (w.servinfo ≡ server.servinfo)

unfoldable pub idle : List Worker → ℕ
idle [] = 0
idle (w ∷ ws) = let rest = idle ws in if w.running == 0 then suc rest else rest

-- After the loop that starts the workers, every worker runs and has the server and the URL to ask for,
-- and as many threads were created as workers were idle.
pub start_workers-IsStarted :
    (i : ℕ) (server : ServerAt) (ws : List Worker)
    → All (IsStarted server) (start_workers i server ws).0
      × (length (start_workers i server ws).1 ≡ idle ws)
unfolding start_workers idle
start_workers-IsStarted i server [] = (tt, refl)
start_workers-IsStarted i server (w ∷ ws) =
    let (a, n) = start_workers-IsStarted (i + 1) server ws in
    elim (Bool-cases (w.running == 0)) [
      | inl e ↦ rw e (((omega arith, refl, refl, refl), a), ap suc n)
      | inr e ↦ rw e ((((λ z. absurd (grind arith)), refl, refl, refl), a), n)
    ]

abbrev pub beat : Bool → Received → Bool → Beat
beat selected received stop = record {
  round = record { selected = selected; received = received };
  stop = stop;
}

-- The chunks that a worker gets in these beats before its loop ends: at the end of the stream, at an
-- error, or behind the chunk after which `thread_all_stop` is set.
pub data Delivers : List Beat → List Bytes → Type 0 where
  ends : (stop : Bool) (beats : List Beat) → Delivers (beat true closed stop ∷ beats) []
  fails : (stop : Bool) (beats : List Beat) → Delivers (beat true failed stop ∷ beats) []
  stops : (c : Bytes) (beats : List Beat) → Delivers (beat true (chunk c) true ∷ beats) (c ∷ [])
  waits :
      (x : Received) (stop : Bool) (beats : List Beat) (cs : List Bytes)
      → Delivers beats cs
      → Delivers (beat false x stop ∷ beats) cs
  gets :
      (c : Bytes) (beats : List Beat) (cs : List Bytes)
      → Delivers beats cs
      → Delivers (beat true (chunk c) false ∷ beats) (c ∷ cs)

-- Whatever chunks a worker gets before its loop ends, the loop does end, and the total has grown by the
-- bytes in them.
pub download_loop_total :
    (beats : List Beat) (cs : List Bytes) (total : ℕ)
    → Delivers beats cs
    → download_loop beats total ≡ (total + length (concat cs), true)
unfolding download_loop concat
download_loop_total _ _ total (ends stop beats) = ap (λ (n : ℕ). (n, true)) (omega arith)
download_loop_total _ _ total (fails stop beats) = ap (λ (n : ℕ). (n, true)) (omega arith)
download_loop_total _ _ total (stops c beats) =
    ap (λ (n : ℕ). (n, true)) (omega (arith, length-append c []))
download_loop_total _ _ total (waits x stop beats cs d) = download_loop_total beats cs total d
download_loop_total _ _ total (gets c beats cs d) =
    download_loop_total beats cs (total + length c) d
    ∙ ap (λ (n : ℕ). (n, true)) (omega (arith, length-append c (concat cs)))

-- The buffers that `upload_thread` counts were all sent: the total grows by a whole number of buffers,
-- by no more than it tries to send, and by no more than there were calls of `send`.
pub upload_loop_total :
    (times : ℕ) (sends : List (ℤ × Bool)) (total : ℕ)
    → (n : ℕ) × ((upload_loop times sends total).0 ≡ total + n * ul_buffer_size)
      × (n ≤ times)
      × (n ≤ length sends)
unfolding upload_loop
upload_loop_total zero sends total = (0, omega arith, omega arith, omega arith)
upload_loop_total (suc times) [] total = (0, omega arith, omega arith, omega arith)
upload_loop_total (suc times) ((size, stop) ∷ sends) total =
    elim (Bool-cases (eq_ℤ size (pos ul_buffer_size))) [
      | inl e ↦ elim (Bool-cases stop) [
        | inl f ↦ (1, rw (e, f) (omega arith), omega arith, omega arith)
        | inr f ↦
            let (n, t, a, b) = upload_loop_total times sends (total + ul_buffer_size) in
            (suc n, rw (e, f) (omega (arith, t)), omega arith, omega arith)
      ]
      | inr e ↦ (0, rw e (omega arith), omega arith, omega arith)
    ]

-- A server that reads the request of `upload_thread` finds the domain name as the path and the request
-- URL as the host: the two stand in each other's place.
pub read_head-upload_request :
    (w : Worker)
    → Lacks b' ' w.domain_name
    → Lacks 13 w.request_url
    → read_head (codes "POST /") post_marker (upload_request w)
      ≡ some (record {
        path = w.domain_name;
        host = w.request_url;
        rest = 10 ∷ (codes "Content-Length: " ++ (decimal 83886080 ++ (crlf ++ crlf)));
      })
unfolding upload_request
read_head-upload_request w h k = read_head-build_http_post w.request_url w.domain_name 83886080 h k
