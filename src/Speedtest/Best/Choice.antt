-- ===== src/Speedtest/Best/Choice.antt =====
-- Which server `get_best_server` chooses.
use gemtek_sw_training.Prelude.{
  if◌then◌else◌, Bool-cases, length, get_or, All, ℕ, zero, suc, ◌+◌, ◌<◌, ◌≡◌, refl, ap, ◌≢◌, ◌⊎◌,
  inl, inr, Bool, true, false, not, ◌&&◌, ℤ, pos, negsuc, ◌≤ℤ◌, ◌<ℤ◌, lt_ℤ, eq_ℤ, List, [], ◌∷◌,
  arith, Bytes,
}
use gemtek_sw_training.Speedtest.Double.{Double}
use gemtek_sw_training.Speedtest.Server.{ServerData, zero_server}
use gemtek_sw_training.Speedtest.Best.{
  Probe, Locals, probe_server, probe_servers, select_best, get_best_server,
}

module _ {F : Double} where
  -- The server answered: its latency is not the mark -1.
  abbrev pub Answered : ServerData F → Type 0
  Answered s = s.latency ≢ negsuc 0

  abbrev pub slot : List (ServerData F) → ℕ → ServerData F
  slot servers k = get_or servers k (zero_server F)

  -- Slot `k` of `rest` is the best of those behind a server with latency `best`, or none is better.
  data Wins (i : ℕ) (best : ℤ) (latency : ℤ) (rest : List (ServerData F)) (r : ℤ) : Type 0 where
    old :
        r ≡ best
        → ((j : ℕ) → j < length rest → Answered (slot rest j) → latency ≤ℤ (slot rest j).latency)
        → Wins i best latency rest r
    new :
        (k : ℕ)
        → r ≡ pos (i + k)
        → k < length rest
        → Answered (slot rest k)
        → (slot rest k).latency <ℤ latency
        → ((j : ℕ)
            → j < length rest
            → Answered (slot rest j)
            → (slot rest k).latency ≤ℤ (slot rest j).latency)
        → Wins i best latency rest r

  -- The table seen from one slot earlier: that slot is passed over, or becomes the best.
  Wins-pass :
      (i : ℕ) (s : ServerData F) (rest : List (ServerData F)) (best latency r : ℤ)
      → (Answered s → latency ≤ℤ s.latency)
      → Wins (i + 1) best latency rest r
      → Wins i best latency (s ∷ rest) r
  Wins-pass i s rest best latency r h (old e a) =
      old e (elim [
        | zero ↦ λ n answered. h answered
        | suc j ↦ λ n answered. a j (omega arith) answered
      ])
  Wins-pass i s rest best latency r h (new k e n answered below a) =
      new (suc k) (rw e (ap pos (omega arith))) (omega arith) answered below (elim [
        | zero ↦ λ m first. (let p = h first in omega arith)
        | suc j ↦ λ m other. a j (omega arith) other
      ])

  Wins-take :
      (i : ℕ) (s : ServerData F) (rest : List (ServerData F)) (best latency r : ℤ)
      → Answered s
      → s.latency <ℤ latency
      → Wins (i + 1) (pos i) s.latency rest r
      → Wins i best latency (s ∷ rest) r
  Wins-take i s rest best latency r answered below (old e a) =
      new 0 (rw e (ap pos (omega arith))) (omega arith) answered below
        (elim [ zero ↦ λ m first. omega arith | suc j ↦ λ m other. a j (omega arith) other ])
  Wins-take i s rest best latency r first below (new k e n answered least a) =
      new (suc k) (rw e (ap pos (omega arith))) (omega arith) answered (omega arith)
        (elim [ zero ↦ λ m other. omega arith | suc j ↦ λ m other. a j (omega arith) other ])

  abbrev Better : ℤ → ServerData F → Type 0
  Better latency s = (s.latency <ℤ latency) × Answered s

  better : ℤ → ServerData F → Bool
  better latency s = lt_ℤ s.latency latency && not (eq_ℤ s.latency (negsuc 0))

  better_iff :
      (latency : ℤ) (s : ServerData F)
      → (better latency s ≡ true → Better latency s)
        × (better latency s ≡ false → Answered s → latency ≤ℤ s.latency)
  unfolding better
  better_iff latency s = (λ e. (grind arith, grind arith), λ e answered. grind arith)

  select_best_later :
      (i : ℕ) (s : ServerData F) (rest : List (ServerData F)) (best latency : ℤ)
      → 0 < i
      → select_best i (s ∷ rest) best latency
        ≡ select_best
            (i + 1)
            rest
            (if better latency s then pos i else best)
            (if better latency s then s.latency else latency)
  unfolding select_best better
  select_best_later i s rest best latency h = grind arith

  select_best-Wins :
      (i : ℕ) (rest : List (ServerData F)) (best latency : ℤ)
      → 0 < i
      → Wins i best latency rest (select_best i rest best latency)
  unfolding select_best
  select_best-Wins i [] best latency h = old refl (λ j k. absurd (omega arith))
  select_best-Wins i (s ∷ rest) best latency h = elim (Bool-cases (better latency s)) [
    | inl e ↦
        (let p = (better_iff latency s).0 e in
          rw (select_best_later i s rest best latency h, e)
            (Wins-take i s rest best latency (select_best (i + 1) rest (pos i) s.latency) p.1 p.0
              (select_best-Wins (i + 1) rest (pos i) s.latency (omega arith))))
    | inr e ↦
        rw (select_best_later i s rest best latency h, e)
          (Wins-pass i s rest best latency (select_best (i + 1) rest best latency)
            ((better_iff latency s).1 e) (select_best-Wins (i + 1) rest best latency (omega arith)))
  ]

  -- With -1 in the first slot nothing is ever smaller.
  select_best_stays :
      (i : ℕ) (rest : List (ServerData F)) (best : ℤ)
      → 0 < i
      → All (λ (s : ServerData F). negsuc 0 ≤ℤ s.latency) rest
      → select_best i rest best (negsuc 0) ≡ best
  unfolding select_best
  select_best_stays i [] best h a = refl
  select_best_stays i (s ∷ rest) best h a = elim (Bool-cases (better (negsuc 0) s)) [
    | inl e ↦ (let p = (better_iff (negsuc 0) s).0 e in let q = a.0 in absurd (omega arith))
    | inr e ↦
        rw (select_best_later i s rest best (negsuc 0) h, e)
          (select_best_stays (i + 1) rest best (omega arith) a.1)
  ]

  -- Slot `k` is the choice: nothing that answered is faster, and it answered itself unless it is the first.
  pub record IsBest (servers : List (ServerData F)) (r : ℤ) (k : ℕ) : Type 0 where
    pub index : r ≡ pos k
    pub inside : k < length servers
    pub first_or_answered : (k ≡ 0) ⊎ Answered (slot servers k)
    pub least :
        (j : ℕ)
        → j < length servers
        → Answered (slot servers j)
        → (slot servers k).latency ≤ℤ (slot servers j).latency

  Wins-IsBest :
      (s : ServerData F) (rest : List (ServerData F)) (r : ℤ)
      → Wins 1 (pos 0) s.latency rest r
      → (k : ℕ) × IsBest (s ∷ rest) r k
  Wins-IsBest s rest r (old e a) = (
    0,
    record {
      index = e;
      inside = omega arith;
      first_or_answered = inl refl;
      least = elim [
        | zero ↦ λ m answered. omega arith
        | suc j ↦ λ m answered. a j (omega arith) answered
      ];
    },
  )
  Wins-IsBest s rest r (new k e n answered below a) = (
    suc k,
    record {
      index = rw e (ap pos (omega arith));
      inside = omega arith;
      first_or_answered = inr answered;
      least = elim [ zero ↦ λ m first. omega arith | suc j ↦ λ m other. a j (omega arith) other ];
    },
  )

  -- For every table with at least one slot, whatever the probes found, `get_best_server` returns the index
  -- of a slot of the table. No server that answered is faster than the one in that slot, and the slot
  -- holds a server that answered unless it is the first one.
  pub get_best_server-IsBest :
      (probe : ℕ → Bytes → Bytes → Probe) (v : Locals) (servers : List (ServerData F))
      → 0 < length servers
      → (k : ℕ) × IsBest
          (get_best_server F probe v servers).1
          (get_best_server F probe v servers).0
          k
  unfolding get_best_server probe_servers select_best probe_server
  get_best_server-IsBest probe v [] h = absurd (omega arith)
  get_best_server-IsBest probe v (s ∷ rest) h =
      let s' = (probe_server F probe 0 s v).0 in
      let rest' = probe_servers F probe 1 rest (probe_server F probe 0 s v).1 in
      Wins-IsBest s' rest' (select_best 1 rest' (pos 0) s'.latency)
        (select_best-Wins 1 rest' (pos 0) s'.latency (omega arith))

  -- If the first slot's probe failed and no latency is below -1, `get_best_server` returns 0, the slot of
  -- that failed server, also where others answered.
  pub get_best_server_first :
      (probe : ℕ → Bytes → Bytes → Probe) (v : Locals) (servers : List (ServerData F))
      → 0 < length servers
      → (slot (get_best_server F probe v servers).1 0).latency ≡ negsuc 0
      → All (λ (s : ServerData F). negsuc 0 ≤ℤ s.latency) (get_best_server F probe v servers).1
      → (get_best_server F probe v servers).0 ≡ pos 0
  unfolding get_best_server probe_servers select_best probe_server
  get_best_server_first probe v [] h e a = absurd (omega arith)
  get_best_server_first probe v (s ∷ rest) h e a =
      let rest' = probe_servers F probe 1 rest (probe_server F probe 0 s v).1 in
      rw e (select_best_stays 1 rest' (pos 0) (omega arith) a.1)
