-- ===== src/Pool.antt =====
-- The threads of src/speedtest_download.c, src/speedtest_upload.c and Mini-Project/Ref/main.c, and the
-- function that starts them again and again until the timer goes off: what they have in common. The
-- bodies of the threads are in Jobs.
pub mod Jobs
pub mod Mutex
pub mod Total
pub mod Schedules
pub mod Join
pub mod Drain
pub mod Stopped
pub mod Return
pub mod Ending
pub mod Stalled
pub mod Tidy
pub mod Https
pub mod Leaks
pub mod Refused
use gemtek_sw_training.Prelude.{
  ltb, ◌==◌, if◌then◌else◌, length, update, ℕ, zero, suc, ◌+◌, Bool, true, false, ℤ, List, [], ◌∷◌,
}
use gemtek_sw_training.Http.{Round}
use gemtek_sw_training.Transfer.{Worker, ServerAt}

-- What one step of a thread needs from outside: what `socket` and `connect` return, what the next
-- `send` returns, what `SSL_connect` and `SSL_write` return, and the next round of `select` and `recv`.
pub record Input : Type 0 where
  pub sockfd : ℤ
  pub status : ℤ
  pub sent : ℤ
  pub ssl_status : ℤ
  pub ssl_sent : ℤ
  pub round : Round

-- What a thread does next, outside of the mutex: go on, add so many bytes to the total and then go on,
-- end, or return and leave `running` as it is.
pub data Action (L : Type 0) : Type 0 where
  go : L → Action L
  count : ℕ → L → Action L
  leave : Action L
  abandon : Action L

-- The body of a thread. The flag is `thread_all_stop`.
pub record Job : Type 1 where
  pub Local : Type 0
  pub start : Local
  pub step : Worker → Input → Bool → Local → Action Local

-- Where a thread stands. `total += n` is a read and a write of the total.
pub data Place (L : Type 0) : Type 0 where
  at : L → Place L
  lock : ℕ → L → Place L
  load : ℕ → L → Place L
  store : ℕ → ℕ → L → Place L
  unlock : L → Place L
  finish : Place L
  gone : Place L
  lost : Place L

-- An element of `thread`, with the thread that was created for it last.
pub record Slot (J : Job) : Type 0 where
  pub worker : Worker
  pub place : Place J.Local

-- What the threads share with each other.
pub record Shared : Type 0 where
  pub locked : Bool
  pub total : ℕ

-- Where the function stands that starts the threads: in its `for` loop, behind it, or joining.
pub data Main : Type 0 where
  starting : ℕ → Main
  testing : Main
  joining : ℕ → Main
  returned : Main

pub record Pool (J : Job) : Type 0 where
  pub main : Main
  pub stop : Bool
  pub shared : Shared
  pub slots : List (Slot J)

-- Who moves next: the starting function, a thread, or the timer with its SIGALRM.
pub data Turn : Type 0 where
  main_runs : Turn
  thread_runs : ℕ → Input → Turn
  alarm : Turn

abbrev pub sigalrm : ℕ
sigalrm = 14

-- The handler: `thread_all_stop`
abbrev pub stop_all_thread : ℕ → Bool → Bool
stop_all_thread signo stop = if signo == sigalrm then true else stop

module _ (J : Job) where
  open J use {Local, start, step}

  unfoldable pub act : Action Local → Place Local
  act (go l) = at l
  act (count n l) = lock n l
  act leave = finish
  act abandon = lost

  -- One step of a thread. `running = 0` is its last one.
  unfoldable pub place_turn : Input → Bool → Place Local → Slot J → Shared → Slot J × Shared
  unfolding act
  place_turn inp stop (at l) t s = (record t { place = act (step t.worker inp stop l) }, s)
  place_turn inp stop (lock n l) t s =
      if s.locked then (t, s) else (record t { place = load n l }, record s { locked = true })
  place_turn inp stop (load n l) t s = (record t { place = store n s.total l }, s)
  place_turn inp stop (store n v l) t s =
      (record t { place = unlock l }, record s { total = v + n })
  place_turn inp stop (unlock l) t s = (record t { place = at l }, record s { locked = false })
  place_turn inp stop finish t s =
      (record { worker = record t.worker { running = 0 }; place = gone }, s)
  place_turn inp stop gone t s = (t, s)
  place_turn inp stop lost t s = (t, s)

  unfoldable pub thread_turn : Input → Bool → Slot J → Shared → Slot J × Shared
  unfolding place_turn
  thread_turn inp stop t s = place_turn inp stop t.place t s

  unfoldable pub turn_at : ℕ → Input → Bool → List (Slot J) → Shared → List (Slot J) × Shared
  unfolding thread_turn
  turn_at k inp stop [] s = ([], s)
  turn_at zero inp stop (t ∷ ts) s = let r = thread_turn inp stop t s in (r.0 ∷ ts, r.1)
  turn_at (suc k) inp stop (t ∷ ts) s = let r = turn_at k inp stop ts s in (t ∷ r.0, r.1)

  -- One round of the `for` loop that starts the threads.
  unfoldable pub start_slot : ℕ → ServerAt → Slot J → Slot J
  start_slot i server t =
      let copied = record t.worker {
        servinfo = server.servinfo;
        domain_name = server.domain_name;
        request_url = server.request_url;
      } in
      if t.worker.running == 0
      then record { worker = record copied { thread_index = i; running = 1 }; place = at start }
      else record { worker = copied; place = t.place }

  abbrev pub has_gone : Place Local → Bool
  has_gone gone = true
  has_gone lost = true
  has_gone p = false

  -- whether `pthread_join` of this thread returns
  unfoldable pub can_join : ℕ → List (Slot J) → Bool
  can_join k [] = true
  can_join zero (t ∷ ts) = has_gone t.place
  can_join (suc k) (t ∷ ts) = can_join k ts

  -- The starting function. The flag says whether it joins the threads before it returns.
  unfoldable pub main_turn : Bool → ServerAt → Main → Pool J → Pool J
  unfolding start_slot can_join
  main_turn joins server (starting i) p =
      if ltb i (length p.slots)
      then record p { main = starting (i + 1); slots = update i (start_slot i server) p.slots }
      else record p { main = testing }
  main_turn joins server testing p = record p {
    main = if p.stop then (if joins then joining 0 else returned) else starting 0;
  }
  main_turn joins server (joining i) p =
      if ltb i (length p.slots)
      then record p { main = if can_join i p.slots then joining (i + 1) else joining i }
      else record p { main = returned }
  main_turn joins server returned p = p

  unfoldable pub turn : Bool → ServerAt → Turn → Pool J → Pool J
  unfolding main_turn turn_at
  turn joins server main_runs p = main_turn joins server p.main p
  turn joins server (thread_runs k inp) p =
      let r = turn_at k inp p.stop p.slots p.shared in record p { slots = r.0; shared = r.1 }
  turn joins server alarm p = record p { stop = stop_all_thread sigalrm p.stop }

  unfoldable pub run : Bool → ServerAt → List Turn → Pool J → Pool J
  unfolding turn
  run joins server [] p = p
  run joins server (t ∷ ts) p = run joins server ts (turn joins server t p)

  abbrev pub idle_slots : List Worker → List (Slot J)
  idle_slots [] = []
  idle_slots (w ∷ ws) = record { worker = w; place = gone } ∷ idle_slots ws

  -- The function is called while no thread runs.
  abbrev pub init : List Worker → ℕ → Pool J
  init ws total = record {
    main = starting 0;
    stop = false;
    shared = record { locked = false; total = total };
    slots = idle_slots ws;
  }
