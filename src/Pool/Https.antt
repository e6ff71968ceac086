-- ===== src/Pool/Https.antt =====
-- `https_download_thread` of src/speedtest_download.c, and elements of `thread` that are lost.
use gemtek_sw_training.Prelude.{
  ltb, if◌then◌else◌, ne→==_false, Bool-cases, length, update, ℕ, zero, suc, ◌≡◌, refl, ◌≢◌, inl,
  inr, Bool, true, pos, lt_ℤ, List, [], ◌∷◌,
}
use gemtek_sw_training.Http.{Received, failed, closed, chunk, init_connection}
use gemtek_sw_training.Transfer.{Worker, ServerAt}
use gemtek_sw_training.Pool.{
  Input, Action, go, count, leave, abandon, Job, Place, at, lock, load, store, unlock, finish, gone,
  lost, Slot, Shared, Main, starting, testing, joining, returned, Pool, Turn, main_runs,
  thread_runs, alarm, place_turn, thread_turn, start_slot, main_turn, turn_at, turn, run, has_gone,
}
use gemtek_sw_training.Pool.Drain.{dead, Stops, Lower}

-- Where the thread stands; the loop is that of `download_thread`, on what `SSL_read` returns.
pub data HttpsDownload : Type 0 where
  opening : HttpsDownload
  handshaking : HttpsDownload
  writing : HttpsDownload
  reading : HttpsDownload
  checking : HttpsDownload

abbrev after_read : Received → Action HttpsDownload
after_read failed = leave
after_read closed = leave
after_read (chunk rbuf) = count (length rbuf) checking

-- The two returns after `SSL_connect` and `SSL_write` do not reach `running = 0`.
unfoldable pub https_download_step : Worker → Input → Bool → HttpsDownload → Action HttpsDownload
unfolding init_connection
https_download_step w inp stop opening =
    if lt_ℤ (pos 0) (init_connection inp.sockfd inp.status) then go handshaking else leave
https_download_step w inp stop handshaking =
    if lt_ℤ (pos 0) inp.ssl_status then go writing else abandon
https_download_step w inp stop writing = if lt_ℤ (pos 0) inp.ssl_sent then go reading else abandon
https_download_step w inp stop reading =
    if inp.round.selected then after_read inp.round.received else go reading
https_download_step w inp stop checking = if stop then leave else go reading

abbrev pub https_download_job : Job
https_download_job = record { Local = HttpsDownload; start = opening; step = https_download_step }

https-Lower :
    (w : Worker) (l : HttpsDownload)
    → Lower (λ (m : HttpsDownload). 0) (https_download_step w dead true l) 0
unfolding https_download_step init_connection
https-Lower w opening = tt
https-Lower w handshaking = tt
https-Lower w writing = tt
https-Lower w reading = tt
https-Lower w checking = tt

pub https_download_job-Stops : Stops https_download_job
https_download_job-Stops = record { left = λ l. 0; lower = https-Lower }

module _ (J : Job) where
  open J use {Local}

  -- The thread of slot `k` has ended, and `running` is still set.
  unfoldable pub IsLostAt : ℕ → List (Slot J) → Type 0
  IsLostAt k [] = ⊥
  IsLostAt zero (t ∷ ts) = (has_gone J t.place ≡ true) × (t.worker.running ≢ 0)
  IsLostAt (suc k) (t ∷ ts) = IsLostAt k ts

  place_lost :
      (inp : Input) (stop : Bool) (p : Place Local) (t : Slot J) (s : Shared)
      → p ≡ t.place
      → has_gone J p ≡ true
      → (place_turn J inp stop p t s).0 ≡ t
  unfolding place_turn
  place_lost inp stop gone t s e h = refl
  place_lost inp stop lost t s e h = refl
  place_lost inp stop (at l) t s e h = absurd cc
  place_lost inp stop (lock n l) t s e h = absurd cc
  place_lost inp stop (load n l) t s e h = absurd cc
  place_lost inp stop (store n v l) t s e h = absurd cc
  place_lost inp stop (unlock l) t s e h = absurd cc
  place_lost inp stop finish t s e h = absurd cc

  turn_at-IsLostAt :
      (k j : ℕ) (inp : Input) (stop : Bool) (ts : List (Slot J)) (s : Shared)
      → IsLostAt k ts
      → IsLostAt k (turn_at J j inp stop ts s).0
  unfolding IsLostAt turn_at thread_turn
  turn_at-IsLostAt k j inp stop [] s h = h
  turn_at-IsLostAt zero zero inp stop (t ∷ ts) s h = rw (place_lost inp stop t.place t s refl h.0) h
  turn_at-IsLostAt zero (suc j) inp stop (t ∷ ts) s h = h
  turn_at-IsLostAt (suc k) zero inp stop (t ∷ ts) s h = h
  turn_at-IsLostAt (suc k) (suc j) inp stop (t ∷ ts) s h = turn_at-IsLostAt k j inp stop ts s h

  update-IsLostAt :
      (k i j : ℕ) (server : ServerAt) (ts : List (Slot J))
      → IsLostAt k ts
      → IsLostAt k (update i (start_slot J j server) ts)
  unfolding IsLostAt update start_slot
  update-IsLostAt k i j server [] h = h
  update-IsLostAt zero zero j server (t ∷ ts) h = rw (ne→==_false t.worker.running 0 h.1) h
  update-IsLostAt zero (suc i) j server (t ∷ ts) h = h
  update-IsLostAt (suc k) zero j server (t ∷ ts) h = h
  update-IsLostAt (suc k) (suc i) j server (t ∷ ts) h = update-IsLostAt k i j server ts h

  main-IsLostAt :
      (joins : Bool) (server : ServerAt) (k : ℕ) (m : Main) (p : Pool J)
      → IsLostAt k p.slots
      → IsLostAt k (main_turn J joins server m p).slots
  unfolding main_turn
  main-IsLostAt joins server k (starting i) p h = elim (Bool-cases (ltb i (length p.slots))) [
    | inl e ↦ rw e (update-IsLostAt k i i server p.slots h)
    | inr e ↦ rw e h
  ]
  main-IsLostAt joins server k testing p h = h
  main-IsLostAt joins server k (joining i) p h = elim (Bool-cases (ltb i (length p.slots))) [
    | inl e ↦ rw e h
    | inr e ↦ rw e h
  ]
  main-IsLostAt joins server k returned p h = h

  turn-IsLostAt :
      (joins : Bool) (server : ServerAt) (k : ℕ) (t : Turn) (p : Pool J)
      → IsLostAt k p.slots
      → IsLostAt k (turn J joins server t p).slots
  unfolding turn
  turn-IsLostAt joins server k main_runs p h = main-IsLostAt joins server k p.main p h
  turn-IsLostAt joins server k (thread_runs j inp) p h =
      turn_at-IsLostAt k j inp p.stop p.slots p.shared h
  turn-IsLostAt joins server k alarm p h = h

  -- Such an element is never used again.
  pub run-IsLostAt :
      (joins : Bool) (server : ServerAt) (k : ℕ) (turns : List Turn) (p : Pool J)
      → IsLostAt k p.slots
      → IsLostAt k (run J joins server turns p).slots
  unfolding run
  run-IsLostAt joins server k [] p h = h
  run-IsLostAt joins server k (t ∷ turns) p h =
      run-IsLostAt joins server k turns (turn J joins server t p)
        (turn-IsLostAt joins server k t p h)
