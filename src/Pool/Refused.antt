-- ===== src/Pool/Refused.antt =====
-- A server that refuses connections: the starting function makes a new thread for each that ends, and
-- each leaves a socket open.
use gemtek_sw_training.Prelude.{
  ltb, lt→ltb, le→ltb_false, length, update, length-update, replicate, All, ℕ, zero, suc, ◌+◌, ◌<◌,
  ◌≡◌, refl, sym, ap, ◌∙◌, Bool, true, false, ℤ, pos, negsuc, lt_ℤ, List, [], ◌∷◌, ◌++◌, arith,
}
use gemtek_sw_training.Http.{failed, init_connection}
use gemtek_sw_training.Http.Sockets.{Fds}
use gemtek_sw_training.Transfer.{Worker, ServerAt}
use gemtek_sw_training.Pool.{
  Input, at, finish, gone, Slot, Shared, Main, starting, testing, Pool, Turn, main_runs,
  thread_runs, act, turn_at, start_slot, main_turn, turn, run, idle_slots, init,
}
use gemtek_sw_training.Pool.Jobs.{connecting, download_step, download_job}
use gemtek_sw_training.Pool.Leaks.{leak_at, leak_turn, leaked}

-- The server refuses the socket `fd`.
abbrev refusal : ℤ → Input
refusal fd = record {
  sockfd = fd;
  status = negsuc 0;
  sent = negsuc 0;
  ssl_status = negsuc 0;
  ssl_sent = negsuc 0;
  round = record { selected = false; received = failed };
}

-- The first thread is started, refused, and ends; the starting function goes once through its loop,
-- past `others` other elements.
attempt : ℤ → ℕ → List Turn → List Turn
attempt fd others turns =
    main_runs
    ∷ thread_runs 0 (refusal fd)
    ∷ thread_runs 0 (refusal fd)
    ∷ (replicate others main_runs ++ main_runs ∷ main_runs ∷ turns)

unfoldable pub attempts : List ℤ → ℕ → List Turn
unfolding attempt
attempts [] others = []
attempts (fd ∷ fds) others = attempt fd others (attempts fds others)

module _ (joins : Bool) (server : ServerAt) where
  abbrev looping : Main → Shared → List (Slot download_job) → Pool download_job
  looping m s ts = record { main = m; stop = false; shared = s; slots = ts }

  -- What a schedule leaves open, and where it leads.
  abbrev outcome : List Turn → Pool download_job → Fds × Pool download_job
  outcome turns p = (leaked joins server turns p, run download_job joins server turns p)

  main_step :
      (turns : List Turn) (p : Pool download_job)
      → outcome (main_runs ∷ turns) p ≡ outcome turns (main_turn download_job joins server p.main p)
  unfolding leaked run turn leak_turn
  main_step turns p = refl

  start_step :
      (i : ℕ) (s : Shared) (ts : List (Slot download_job)) (turns : List Turn)
      → i < length ts
      → outcome (main_runs ∷ turns) (looping (starting i) s ts)
        ≡ outcome turns
            (looping (starting (i + 1)) s (update i (start_slot download_job i server) ts))
  unfolding main_turn
  start_step i s ts turns h =
      main_step turns (looping (starting i) s ts)
      ∙ ap (outcome turns) (rw (lt→ltb i (length ts) h, main_turn) refl)

  -- The turns past the other elements.
  pass :
      (n i : ℕ) (s : Shared) (t : Slot download_job) (ts : List (Slot download_job))
      (turns : List Turn)
      → i + n ≡ length ts
      → (ts' : List (Slot download_job)) × (length ts' ≡ length ts)
        × (outcome (replicate n main_runs ++ turns) (looping (starting (suc i)) s (t ∷ ts))
            ≡ outcome turns (looping (starting (suc (length ts))) s (t ∷ ts')))
  unfolding update
  pass zero i s t ts turns e = let e' : i ≡ length ts = omega arith in (ts, refl, rw e' refl)
  pass (suc n) i s t ts turns e =
      let us = update i (start_slot download_job (suc i) server) ts in
      let sized : length us ≡ length ts =
        length-update i (start_slot download_job (suc i) server) ts in
      let next : suc i + 1 ≡ suc (suc i) = omega arith in
      let (ts', l, r) = pass n (suc i) s t us turns (omega arith) in
      (
        ts',
        l ∙ sized,
        start_step (suc i) s (t ∷ ts) (replicate n main_runs ++ turns) (omega arith)
            ∙ ap (λ m. outcome (replicate n main_runs ++ turns) (looping (starting m) s (t ∷ us)))
                next
            ∙ r
            ∙ ap (λ m. outcome turns (looping (starting (suc m)) s (t ∷ ts'))) sized,
      )

  -- Behind the loop, while the timer has not gone off.
  again :
      (s : Shared) (ts : List (Slot download_job)) (turns : List Turn)
      → outcome (main_runs ∷ main_runs ∷ turns) (looping (starting (length ts)) s ts)
        ≡ outcome turns (looping (starting 0) s ts)
  unfolding main_turn
  again s ts turns =
      let over : ltb (length ts) (length ts) ≡ false =
        le→ltb_false (length ts) (length ts) (omega arith) in
      main_step (main_runs ∷ turns) (looping (starting (length ts)) s ts)
      ∙ ap (outcome (main_runs ∷ turns)) (rw (over, main_turn) refl)
      ∙ main_step turns (looping testing s ts)

  abbrev connecting_slot : Slot download_job → Slot download_job
  connecting_slot t = record {
    worker = record t.worker {
      servinfo = server.servinfo;
      domain_name = server.domain_name;
      request_url = server.request_url;
      thread_index = 0;
      running = 1;
    };
    place = at connecting;
  }

  abbrev ended_slot : Slot download_job → Slot download_job
  ended_slot t = record { worker = record (connecting_slot t).worker { running = 0 }; place = gone }

  start_idle :
      (t : Slot download_job)
      → t.worker.running ≡ 0
      → start_slot download_job 0 server t ≡ connecting_slot t
  unfolding start_slot
  start_idle t e = rw (e, start_slot) refl

  thread_step :
      (inp : Input) (fds : Fds) (m : Main) (s : Shared) (ts ts' : List (Slot download_job))
      (turns : List Turn)
      → leak_at 0 inp ts ≡ fds
      → turn_at download_job 0 inp false ts s ≡ (ts', s)
      → outcome (thread_runs 0 inp ∷ turns) (looping m s ts) ≡ (
        fds ++ leaked joins server turns (looping m s ts'),
        run download_job joins server turns (looping m s ts'),
      )
  unfolding leaked run turn leak_turn
  thread_step inp fds m s ts ts' turns l e = rw (l, e) refl

  abbrev leaving_slot : Slot download_job → Slot download_job
  leaving_slot t = record (connecting_slot t) { place = finish }

  refused_leaks :
      (fd : ℤ) (t : Slot download_job) (ts : List (Slot download_job))
      → lt_ℤ (pos 0) fd ≡ true
      → leak_at 0 (refusal fd) (connecting_slot t ∷ ts) ≡ fd ∷ []
  unfolding leak_at
  refused_leaks fd t ts h = rw h refl

  refused_leaves :
      (fd : ℤ) (s : Shared) (t : Slot download_job) (ts : List (Slot download_job))
      → lt_ℤ (pos 0) fd ≡ true
      → turn_at download_job 0 (refusal fd) false (connecting_slot t ∷ ts) s
        ≡ (leaving_slot t ∷ ts, s)
  unfolding turn_at act download_step init_connection
  refused_leaves fd s t ts h = rw (h, init_connection, download_step, act) refl

  leaving_ends :
      (fd : ℤ) (s : Shared) (t : Slot download_job) (ts : List (Slot download_job))
      → turn_at download_job 0 (refusal fd) false (leaving_slot t ∷ ts) s ≡ (ended_slot t ∷ ts, s)
  unfolding turn_at
  leaving_ends fd s t ts = refl

  -- The two turns of a thread that is refused.
  refused_turns :
      (fd : ℤ) (m : Main) (s : Shared) (t : Slot download_job) (ts : List (Slot download_job))
      (turns : List Turn)
      → lt_ℤ (pos 0) fd ≡ true
      → outcome
          (thread_runs 0 (refusal fd) ∷ thread_runs 0 (refusal fd) ∷ turns)
          (looping m s (connecting_slot t ∷ ts))
        ≡ (
          fd ∷ leaked joins server turns (looping m s (ended_slot t ∷ ts)),
          run download_job joins server turns (looping m s (ended_slot t ∷ ts)),
        )
  unfolding leak_at
  refused_turns fd m s t ts turns h =
      thread_step (refusal fd) (fd ∷ []) m s (connecting_slot t ∷ ts) (leaving_slot t ∷ ts)
        (thread_runs 0 (refusal fd) ∷ turns) (refused_leaks fd t ts h) (refused_leaves fd s t ts h)
      ∙ ap (λ (o : Fds × Pool download_job). (fd ∷ o.0, o.1))
          (thread_step (refusal fd) [] m s (leaving_slot t ∷ ts) (ended_slot t ∷ ts) turns refl
            (leaving_ends fd s t ts))

  -- One attempt, from an idle first element on.
  attempt_leaks :
      (fd : ℤ) (s : Shared) (t : Slot download_job) (ts : List (Slot download_job))
      (turns : List Turn)
      → lt_ℤ (pos 0) fd ≡ true
      → t.worker.running ≡ 0
      → (ts' : List (Slot download_job)) × (length ts' ≡ length ts)
        × (outcome (attempt fd (length ts) turns) (looping (starting 0) s (t ∷ ts)) ≡ (
          fd ∷ leaked joins server turns (looping (starting 0) s (ended_slot t ∷ ts')),
          run download_job joins server turns (looping (starting 0) s (ended_slot t ∷ ts')),
        ))
  unfolding attempt update
  attempt_leaks fd s t ts turns h e =
      let (ts', l, r) =
        pass (length ts) 0 s (ended_slot t) ts (main_runs ∷ main_runs ∷ turns) (omega arith) in
      (
        ts',
        l,
        start_step 0 s (t ∷ ts)
              (thread_runs 0 (refusal fd)
                ∷ thread_runs 0 (refusal fd)
                ∷ (replicate (length ts) main_runs ++ main_runs ∷ main_runs ∷ turns))
              (omega arith)
            ∙ ap
                (λ u.
                  outcome
                    (thread_runs 0 (refusal fd)
                      ∷ thread_runs 0 (refusal fd)
                      ∷ (replicate (length ts) main_runs ++ main_runs ∷ main_runs ∷ turns))
                    (looping (starting 1) s (u ∷ ts)))
                (start_idle t e)
            ∙ refused_turns fd (starting 1) s t ts
                (replicate (length ts) main_runs ++ main_runs ∷ main_runs ∷ turns) h
            ∙ ap (λ (o : Fds × Pool download_job). (fd ∷ o.0, o.1))
                (r
                  ∙ ap
                      (λ n.
                        outcome (main_runs ∷ main_runs ∷ turns)
                          (looping (starting (suc n)) s (ended_slot t ∷ ts')))
                      (sym l)
                  ∙ again s (ended_slot t ∷ ts') turns),
      )

  attempts_leak :
      (fds : List ℤ) (s : Shared) (t : Slot download_job) (ts : List (Slot download_job))
      → All (λ fd. lt_ℤ (pos 0) fd ≡ true) fds
      → t.worker.running ≡ 0
      → (leaked joins server (attempts fds (length ts)) (looping (starting 0) s (t ∷ ts)) ≡ fds)
        × ((run download_job joins server
              (attempts fds (length ts))
              (looping (starting 0) s (t ∷ ts))).main
            ≡ starting 0)
  unfolding attempts
  attempts_leak [] s t ts h e = unfold leaked run in (refl, refl)
  attempts_leak (fd ∷ fds) s t ts (h, hs) e =
      let (ts', l, r) = attempt_leaks fd s t ts (attempts fds (length ts)) h e in
      let ih = attempts_leak fds s (ended_slot t) ts' hs refl in
      let rest = looping (starting 0) s (ended_slot t ∷ ts') in
      (
        ap (λ (o : Fds × Pool download_job). o.0) r
            ∙ ap (λ n. fd ∷ leaked joins server (attempts fds n) rest) (sym l)
            ∙ ap (λ (open_fds : Fds). fd ∷ open_fds) ih.0,
        ap (λ (o : Fds × Pool download_job). o.1.main) r
            ∙ ap (λ n. (run download_job joins server (attempts fds n) rest).main) (sym l)
            ∙ ih.1,
      )

-- While the server refuses connections, sockets pile up: for any list of descriptors that `socket` may
-- return, there is a schedule of `speedtest_download` in which exactly these are left open, one behind
-- the other, and the function is then at the start of its loop, as at first. The element of the first
-- thread is idle at first.
pub sockets_pile_up :
    (joins : Bool) (server : ServerAt) (fds : List ℤ) (w : Worker) (ws : List Worker) (total : ℕ)
    → All (λ fd. lt_ℤ (pos 0) fd ≡ true) fds
    → w.running ≡ 0
    → (turns : List Turn) × (leaked joins server turns (init download_job (w ∷ ws) total) ≡ fds)
      × ((run download_job joins server turns (init download_job (w ∷ ws) total)).main ≡ starting 0)
sockets_pile_up joins server fds w ws total h e =
    let others = idle_slots download_job ws in
    let (left, back) =
      attempts_leak joins server fds (record { locked = false; total = total })
        (record { worker = w; place = gone }) others h e in
    (attempts fds (length others), left, back)
