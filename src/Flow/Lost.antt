-- ===== src/Flow/Lost.antt =====
-- Both tests of Mini-Project/Application/main.c with HTTPS, when a handshake fails.
use gemtek_sw_training.Prelude.{
  ℕ, zero, suc, ◌≡◌, refl, ◌≢◌, Bool, true, false, pos, lt_ℤ, List, [], ◌∷◌,
}
use gemtek_sw_training.Transfer.{ServerAt}
use gemtek_sw_training.Pool.{
  Input, Place, at, lost, Slot, Shared, Pool, Turn, thread_runs, act, place_turn, thread_turn,
  turn_at, turn, run, init, idle_slots,
}
use gemtek_sw_training.Pool.Jobs.{upload_job}
use gemtek_sw_training.Pool.Https.{
  HttpsDownload, handshaking, https_download_step, https_download_job, IsLostAt, run-IsLostAt,
}
use gemtek_sw_training.Flow.Speed.{workers}

-- The thread of slot `k` is about to call `SSL_connect`.
unfoldable pub IsShakingAt : ℕ → List (Slot https_download_job) → Type 0
IsShakingAt k [] = ⊥
IsShakingAt zero (t ∷ ts) =
    ◌≡◌ {A = Place HttpsDownload} t.place (at handshaking) × (t.worker.running ≢ 0)
IsShakingAt (suc k) (t ∷ ts) = IsShakingAt k ts

place_shaking :
    (inp : Input) (stop : Bool) (p : Place HttpsDownload) (t : Slot https_download_job) (s : Shared)
    → ◌≡◌ {A = Place HttpsDownload} p (at handshaking)
    → lt_ℤ (pos 0) inp.ssl_status ≡ false
    → (place_turn https_download_job inp stop p t s).0 ≡ record t { place = lost }
place_shaking inp stop p t s e h = rw e (unfold place_turn act https_download_step in rw h refl)

turn_at-shaking :
    (k : ℕ) (inp : Input) (stop : Bool) (ts : List (Slot https_download_job)) (s : Shared)
    → IsShakingAt k ts
    → lt_ℤ (pos 0) inp.ssl_status ≡ false
    → IsLostAt https_download_job k (turn_at https_download_job k inp stop ts s).0
unfolding IsShakingAt IsLostAt turn_at thread_turn
turn_at-shaking k inp stop [] s h f = h
turn_at-shaking zero inp stop (t ∷ ts) s h f =
    rw (place_shaking inp stop t.place t s h.0 f) (refl, h.1)
turn_at-shaking (suc k) inp stop (t ∷ ts) s h f = turn_at-shaking k inp stop ts s h f

-- The upload takes the elements over as they are.
idle_slots-IsLostAt :
    (k : ℕ) (ts : List (Slot https_download_job))
    → IsLostAt https_download_job k ts
    → IsLostAt upload_job k (idle_slots upload_job (workers ts))
unfolding IsLostAt
idle_slots-IsLostAt k [] h = h
idle_slots-IsLostAt zero (t ∷ ts) h = (refl, h.1)
idle_slots-IsLostAt (suc k) (t ∷ ts) h = idle_slots-IsLostAt k ts h

-- With HTTPS, when `SSL_connect` fails for a thread, its element of `thread` is lost to both tests: in no
-- schedule of the rest of the download, nor of the upload behind it, is a thread started for it again,
-- because `running` stays set.
pub failed_handshake_lost :
    (server server' : ServerAt) (inp : Input) (dl_turns ul_turns : List Turn)
    (p : Pool https_download_job) (k total : ℕ)
    → IsShakingAt k p.slots
    → lt_ℤ (pos 0) inp.ssl_status ≡ false
    → IsLostAt upload_job k
        (run upload_job true server' ul_turns (
          init upload_job
            (workers (run https_download_job true server (thread_runs k inp ∷ dl_turns) p).slots)
            total)).slots
unfolding run turn
failed_handshake_lost server server' inp dl_turns ul_turns p k total h f =
    run-IsLostAt upload_job true server' k ul_turns
      (init upload_job
        (workers (run https_download_job true server (thread_runs k inp ∷ dl_turns) p).slots) total)
      (idle_slots-IsLostAt k
        (run https_download_job true server (thread_runs k inp ∷ dl_turns) p).slots
        (run-IsLostAt https_download_job true server k dl_turns
          (turn https_download_job true server (thread_runs k inp) p)
          (turn_at-shaking k inp p.stop p.slots p.shared h f)))
