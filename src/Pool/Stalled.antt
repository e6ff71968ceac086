-- ===== src/Pool/Stalled.antt =====
-- A download thread whose server sends nothing more.
use gemtek_sw_training.Prelude.{
  ltb, ne→==_false, Bool-cases, length, update, All, ℕ, zero, suc, ◌≡◌, refl, sym, ◌∙◌, ◌≢◌, inl,
  inr, Bool, true, false, List, [], ◌∷◌, ◌++◌,
}
use mathlib.Core.Path.{subst}
use gemtek_sw_training.Transfer.{Worker, ServerAt}
use gemtek_sw_training.Pool.{
  Input, Place, at, Slot, Shared, Main, starting, testing, joining, returned, Pool, Turn, main_runs,
  thread_runs, alarm, act, has_gone, place_turn, thread_turn, start_slot, main_turn, turn_at, turn,
  run, init,
}
use gemtek_sw_training.Pool.Jobs.{Download, receiving, received, download_step, download_job}
use gemtek_sw_training.Pool.Mutex.{SlotOk, RunningAt}
use gemtek_sw_training.Pool.Schedules.{Sound, turn-Sound, run-Sound, init-Sound, IsIdle}
use gemtek_sw_training.Pool.Join.{HasEnded, returned_all_ended}
use gemtek_sw_training.Pool.Return.{run-append}

-- Thread `k` waits for data.
unfoldable pub Receives : ℕ → List (Slot download_job) → Type 0
Receives k [] = ⊥
Receives zero (t ∷ ts) = ◌≡◌ {A = Place Download} t.place (at receiving)
Receives (suc k) (t ∷ ts) = Receives k ts

-- `select` times out in every round.
abbrev pub TimesOut : Turn → Type 0
TimesOut main_runs = Unit {0}
TimesOut (thread_runs k inp) = inp.round.selected ≡ false
TimesOut alarm = Unit {0}

receiving-place :
    (inp : Input) (stop : Bool) (p : Place Download) (t : Slot download_job) (s : Shared)
    → inp.round.selected ≡ false
    → p ≡ t.place
    → ◌≡◌ {A = Place Download} p (at receiving)
    → ◌≡◌ {A = Place Download} (place_turn download_job inp stop p t s).0.place (at receiving)
receiving-place inp stop p t s e k h =
    rw h (unfold place_turn act download_step received in rw e refl)

turn_at-Receives :
    (k j : ℕ) (inp : Input) (stop : Bool) (ts : List (Slot download_job)) (s : Shared)
    → inp.round.selected ≡ false
    → Receives k ts
    → Receives k (turn_at download_job j inp stop ts s).0
unfolding Receives turn_at thread_turn
turn_at-Receives k j inp stop [] s e h = h
turn_at-Receives zero zero inp stop (t ∷ ts) s e h = receiving-place inp stop t.place t s e refl h
turn_at-Receives zero (suc j) inp stop (t ∷ ts) s e h = h
turn_at-Receives (suc k) zero inp stop (t ∷ ts) s e h = h
turn_at-Receives (suc k) (suc j) inp stop (t ∷ ts) s e h = turn_at-Receives k j inp stop ts s e h

-- A thread that runs is not started again.
start_slot_running :
    (i : ℕ) (server : ServerAt) (t : Slot download_job) (p : Place Download)
    → p ≡ t.place
    → ◌≡◌ {A = Place Download} p (at receiving)
    → RunningAt download_job p t.worker.running
    → ◌≡◌ {A = Place Download} (start_slot download_job i server t).place (at receiving)
unfolding start_slot
start_slot_running i server t p k h r =
    let running : t.worker.running ≢ 0 =
      subst (λ q. RunningAt download_job q t.worker.running) h r in
    rw (ne→==_false t.worker.running 0 running) (sym k ∙ h)

update-Receives :
    (k i j : ℕ) (server : ServerAt) (ts : List (Slot download_job))
    → All (SlotOk download_job) ts
    → Receives k ts
    → Receives k (update i (start_slot download_job j server) ts)
unfolding Receives update
update-Receives k i j server [] a h = h
update-Receives zero zero j server (t ∷ ts) a h = start_slot_running j server t t.place refl h a.0
update-Receives zero (suc i) j server (t ∷ ts) a h = h
update-Receives (suc k) zero j server (t ∷ ts) a h = h
update-Receives (suc k) (suc i) j server (t ∷ ts) a h = update-Receives k i j server ts a.1 h

main-Receives :
    (server : ServerAt) (k : ℕ) (m : Main) (p : Pool download_job)
    → All (SlotOk download_job) p.slots
    → Receives k p.slots
    → Receives k (main_turn download_job true server m p).slots
unfolding main_turn
main-Receives server k (starting i) p a h = elim (Bool-cases (ltb i (length p.slots))) [
  | inl e ↦ rw e (update-Receives k i i server p.slots a h)
  | inr e ↦ rw e h
]
main-Receives server k testing p a h = h
main-Receives server k (joining i) p a h = elim (Bool-cases (ltb i (length p.slots))) [
  | inl e ↦ rw e h
  | inr e ↦ rw e h
]
main-Receives server k returned p a h = h

turn-Receives :
    (server : ServerAt) (k : ℕ) (t : Turn) (p : Pool download_job)
    → TimesOut t
    → All (SlotOk download_job) p.slots
    → Receives k p.slots
    → Receives k (turn download_job true server t p).slots
unfolding turn
turn-Receives server k main_runs p o a h = main-Receives server k p.main p a h
turn-Receives server k (thread_runs j inp) p o a h =
    turn_at-Receives k j inp p.stop p.slots p.shared o h
turn-Receives server k alarm p o a h = h

run-Receives :
    (server : ServerAt) (k : ℕ) (turns : List Turn) (total : ℕ) (p : Pool download_job)
    → All TimesOut turns
    → Sound download_job total p
    → Receives k p.slots
    → Receives k (run download_job true server turns p).slots
unfolding run
run-Receives server k [] total p o a h = h
run-Receives server k (t ∷ turns) total p o a h =
    run-Receives server k turns _ (turn download_job true server t p) o.1
      (turn-Sound download_job total true server t p a)
      (turn-Receives server k t p o.0 a.slots_ok h)

Receives-running :
    (k : ℕ) (ts : List (Slot download_job)) → All (HasEnded download_job) ts → Receives k ts → ⊥
unfolding Receives
Receives-running k [] a h = h
Receives-running zero (t ∷ ts) a h =
    let e : has_gone download_job (at receiving) ≡ true =
      subst (λ q. has_gone download_job q ≡ true) h a.0.ended in
    absurd cc
Receives-running (suc k) (t ∷ ts) a h = Receives-running k ts a.1 h

-- Once a download thread waits for data and every `select` from then on times out, `speedtest_download`
-- does not return, in no schedule that goes on from there, although the timer may have gone off.
pub stalled_never_returns :
    (server : ServerAt) (turns more : List Turn) (ws : List Worker) (total k : ℕ)
    → All (IsIdle download_job) ws
    → Receives k (run download_job true server turns (init download_job ws total)).slots
    → All TimesOut more
    → ◌≢◌ {A = Main}
        (run download_job true server (turns ++ more) (init download_job ws total)).main
        returned
stalled_never_returns server turns more ws total k idle h o e =
    Receives-running k
      (run download_job true server (turns ++ more) (init download_job ws total)).slots
      (returned_all_ended download_job server (turns ++ more) ws total idle e).0 still
  where
    p : Pool download_job
    p = init download_job ws total

    still : Receives k (run download_job true server (turns ++ more) p).slots
    still = rw (run-append download_job server turns more p) (
        run-Receives server k more _ (run download_job true server turns p) o
          (run-Sound download_job true server turns total p (init-Sound download_job ws total idle))
          h)
