-- ===== src/Flow/Chosen.antt =====
-- Which server Mini-Project/Application/main.c tests.
use gemtek_sw_training.Prelude.{
  length, replicate, ℕ, zero, suc, ◌+◌, ◌≤◌, ◌<◌, ◌≡◌, refl, ap, ◌∙◌, pos, ◌≤ℤ◌, List, [], ◌∷◌,
  ◌++◌, arith, Bytes,
}
use mathlib.Core.List.{Perm, Mem, mem-cons_self, mem-cons_of_mem}
use gemtek_sw_training.FileHandle.{Files}
use gemtek_sw_training.Speedtest.Double.{Double}
use gemtek_sw_training.Speedtest.Server.{ServerData, ClientData, zero_server}
use gemtek_sw_training.Speedtest.Nearest.{Candidate, listed, get_nearest_server}
use gemtek_sw_training.Speedtest.Nearest.Table.{Holds}
use gemtek_sw_training.Speedtest.Nearest.Order.{IsRanked}
use gemtek_sw_training.Speedtest.Nearest.Result.{IsNearest}
use gemtek_sw_training.Speedtest.Best.{
  Probe, Locals, latency_url, scan_domain, probe_server, probe_servers, get_best_server,
}
use gemtek_sw_training.Speedtest.Best.Choice.{Answered, slot, IsBest, get_best_server-IsBest}

module _ (F : Double) where
  open F use {Number, le}

  -- Probing changes neither the number of servers nor what the list says of them.
  length-probe_servers :
      (probe : ℕ → Bytes → Bytes → Probe) (i : ℕ) (ss : List (ServerData F)) (v : Locals)
      → length (probe_servers F probe i ss v) ≡ length ss
  unfolding probe_servers
  length-probe_servers probe i [] v = refl
  length-probe_servers probe i (s ∷ ss) v =
      ap suc (length-probe_servers probe (i + 1) ss (probe_server F probe i s v).1)

  listed-probe_servers :
      (probe : ℕ → Bytes → Bytes → Probe) (i : ℕ) (ss : List (ServerData F)) (v : Locals) (k : ℕ)
      → listed F (slot (probe_servers F probe i ss v) k) ≡ listed F (slot ss k)
  unfolding probe_servers probe_server
  listed-probe_servers probe i [] v k = refl
  listed-probe_servers probe i (s ∷ ss) v zero = refl
  listed-probe_servers probe i (s ∷ ss) v (suc k) =
      listed-probe_servers probe (i + 1) ss (probe_server F probe i s v).1 k

  -- The domain name is that of the URL of the latency file, or what it was before.
  domain-probe_servers :
      (probe : ℕ → Bytes → Bytes → Probe) (i : ℕ) (ss : List (ServerData F)) (v : Locals) (k : ℕ)
      → k < length ss
      → (old : Bytes) × ((slot (probe_servers F probe i ss v) k).domain_name
          ≡ scan_domain (latency_url (slot (probe_servers F probe i ss v) k).url) old)
  unfolding probe_servers probe_server
  domain-probe_servers probe i [] v k h = absurd (omega arith)
  domain-probe_servers probe i (s ∷ ss) v zero h = (s.domain_name, refl)
  domain-probe_servers probe i (s ∷ ss) v (suc k) h =
      domain-probe_servers probe (i + 1) ss (probe_server F probe i s v).1 k (omega arith)

  Holds-Mem :
      (slots : List (ServerData F)) (cs : List (Candidate F)) (k : ℕ)
      → Holds F slots cs
      → k < length cs
      → Mem (listed F (slot slots k)) cs
  Holds-Mem [] [] k h b = absurd (omega arith)
  Holds-Mem [] (c ∷ cs) k h b = elim h [ ]
  Holds-Mem (s ∷ slots) [] k h b = absurd (omega arith)
  Holds-Mem (s ∷ slots) (c ∷ cs) zero h b = rw h.1 mem-cons_self
  Holds-Mem (s ∷ slots) (c ∷ cs) (suc k) h b =
      mem-cons_of_mem c (Holds-Mem slots cs k h.2 (omega arith))

-- The server `s` that is tested, among those of the list and those that were probed: it is one of the
-- `n` nearest, its domain name is read from the URL of its latency file, and nothing that was probed
-- and answered is faster.
pub record IsChosen (F : Double) (n : ℕ) (all : List (Candidate F)) (probed : List (ServerData F))
    (s : ServerData F) : Type 0 where
  pub best : List (Candidate F)
  pub rest : List (Candidate F)
  pub complete : Perm (best ++ rest) all
  pub ranked : IsRanked F (best ++ rest)
  pub filled : length best ≡ n
  pub chosen : Mem (listed F s) best
  pub domain : (old : Bytes) × (s.domain_name ≡ scan_domain (latency_url s.url) old)
  pub same : (j : ℕ) → j < n → Mem (listed F (slot probed j)) best
  pub fastest : (j : ℕ) → j < n → Answered (slot probed j) → s.latency ≤ℤ (slot probed j).latency

module _ (F : Double) where
  open F use {Number, le}

  pub IsChosen-of :
      (n count : ℕ) (all : List (Candidate F)) (r : ℕ × List (ServerData F))
      (probe : ℕ → Bytes → Bytes → Probe) (v : Locals)
      → 0 < n
      → n ≤ length all
      → IsNearest F n count all r
      → (k : ℕ) × ((get_best_server F probe v r.1).0 ≡ pos k)
        × (k < n)
        × IsChosen F n all
            (get_best_server F probe v r.1).1
            (slot (get_best_server F probe v r.1).1 k)
  unfolding get_best_server
  IsChosen-of n count all r probe v some_slot h near =
      let (k, b) = get_best_server-IsBest probe v r.1 (omega (arith, near.size)) in
      (
        k,
        b.index,
        inside k b,
        record {
          best = near.best;
          rest = near.rest;
          complete = near.complete;
          ranked = near.ranked;
          filled = filled;
          chosen = among k (inside k b);
          domain =
              domain-probe_servers F probe 0 r.1 v k
                (let m = inside k b in omega (arith, near.size));
          same = among;
          fastest = λ j m answered. b.least j (omega (arith, sized)) answered;
        },
      )
    where
      probed : List (ServerData F)
      probed = (get_best_server F probe v r.1).1

      filled : length near.best ≡ n
      filled = omega (arith, near.together, near.left_out)

      sized : length probed ≡ n
      sized = length-probe_servers F probe 0 r.1 v ∙ near.size

      inside : (k : ℕ) → IsBest probed (get_best_server F probe v r.1).0 k → k < n
      inside k b = (let m = b.inside in omega (arith, sized))

      among : (k : ℕ) → k < n → Mem (listed F (slot probed k)) near.best
      among k m =
          rw (listed-probe_servers F probe 0 r.1 v k)
            (Holds-Mem F r.1 near.best k near.held (omega (arith, filled)))

  -- The table of the `n` nearest servers after `get_best_server` has probed them.
  abbrev pub probed_servers :
      ℕ → (ℕ → Bytes → Bytes → Probe) → Locals → Files → ClientData F → List (ServerData F)
  probed_servers n probe v fs client =
      (get_best_server F probe v
        (get_nearest_server F fs client.latitude client.longitude
          (replicate n (zero_server F))).1).1
