-- ===== src/Pool/Stopped.antt =====
-- When the starting function joins, `thread_all_stop` is set.
use gemtek_sw_training.Prelude.{
  ltb, Bool-cases, length, ◌≡◌, refl, inl, inr, Bool, true, List, [], ◌∷◌,
}
use gemtek_sw_training.Transfer.{ServerAt}
use gemtek_sw_training.Pool.{
  Job, Main, starting, testing, joining, returned, Pool, Turn, main_runs, thread_runs, alarm,
  can_join, main_turn, turn, run,
}

module _ (J : Job) (server : ServerAt) where
  -- The function joins only after the timer has gone off.
  abbrev pub StopOk : Main → Bool → Type 0
  StopOk (joining i) stop = stop ≡ true
  StopOk m stop = Unit {0}

  main-StopOk :
      (m : Main) (p : Pool J)
      → p.main ≡ m
      → StopOk m p.stop
      → StopOk (main_turn J true server m p).main (main_turn J true server m p).stop
  unfolding main_turn
  main-StopOk (starting i) p e h = elim (Bool-cases (ltb i (length p.slots))) [
    | inl b ↦ rw b tt
    | inr b ↦ rw b tt
  ]
  main-StopOk testing p e h = elim (Bool-cases p.stop) [ inl b ↦ rw b refl | inr b ↦ rw b tt ]
  main-StopOk (joining i) p e h = elim (Bool-cases (ltb i (length p.slots))) [
    | inl b ↦ elim (Bool-cases (can_join J i p.slots)) [ inl c ↦ rw (b, c) h | inr c ↦ rw (b, c) h ]
    | inr b ↦ rw b tt
  ]
  main-StopOk returned p e h = rw e tt

  alarm-StopOk : (m : Main) (stop : Bool) → StopOk m stop → StopOk m true
  alarm-StopOk (joining i) stop h = refl
  alarm-StopOk (starting i) stop h = tt
  alarm-StopOk testing stop h = tt
  alarm-StopOk returned stop h = tt

  turn-StopOk :
      (t : Turn) (p : Pool J)
      → StopOk p.main p.stop
      → StopOk (turn J true server t p).main (turn J true server t p).stop
  unfolding turn
  turn-StopOk main_runs p h = main-StopOk p.main p refl h
  turn-StopOk (thread_runs k inp) p h = h
  turn-StopOk alarm p h = alarm-StopOk p.main p.stop h

  pub run-StopOk :
      (turns : List Turn) (p : Pool J)
      → StopOk p.main p.stop
      → StopOk (run J true server turns p).main (run J true server turns p).stop
  unfolding run
  run-StopOk [] p h = h
  run-StopOk (t ∷ turns) p h = run-StopOk turns (turn J true server t p) (turn-StopOk t p h)
