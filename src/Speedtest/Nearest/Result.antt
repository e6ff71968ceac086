-- ===== src/Speedtest/Nearest/Result.antt =====
-- `get_nearest_server` leaves the nearest servers of the list in the table.
use gemtek_sw_training.Prelude.{
  ltb, if◌then◌else◌, length, take, drop, replicate, All, length-replicate, length-append,
  take-append-drop, ℕ, sym, ◌∙◌, zero, suc, ◌+◌, ◌-◌, ◌≤◌, ◌≡◌, refl, ap, true, false, some, List,
  [], ◌∷◌, ◌++◌, append-nil, arith, Bytes,
}
use mathlib.Core.Path.{subst}
use mathlib.Core.List.{Perm}
use gemtek_sw_training.CString.{lines}
use gemtek_sw_training.FileHandle.{Files}
use gemtek_sw_training.Speedtest.Double.{Double}
use gemtek_sw_training.Speedtest.Server.{ServerData, zero_server}
use gemtek_sw_training.Speedtest.Nearest.{
  Candidate, get_nearest_server, servers_path, Buffers, Progress, read_lines,
}
use gemtek_sw_training.Speedtest.Nearest.Table.{IsNamed, Holds}
use gemtek_sw_training.Speedtest.Nearest.Order.{
  rank_all, IsRanked, rank_all-perm, length-rank_all, rank_all-IsRanked,
}
use gemtek_sw_training.Speedtest.Nearest.Ranking.{candidates, Tracks}
use gemtek_sw_training.Speedtest.Nearest.Tags.{
  skip_unnamed, length-skip_unnamed, read_lines-Tracks_skip,
}

module _ (F : Double) where
  open F use {Number, le}

  abbrev pub no_buffers : Buffers F
  no_buffers = record { url = []; lat = []; lon = []; name = []; country = [] }

  -- the servers that a list with this content names, seen from a place: lines that start with `<server`
  -- and give no URL are passed over, as `<servers>` before the first server
  abbrev pub servers_of : Number → Number → Bytes → List (Candidate F)
  servers_of lat lon content = skip_unnamed F (candidates F lat lon (lines 510 content) no_buffers)

  -- the number of the lines that start with `<server`
  abbrev pub server_lines : Number → Number → Bytes → ℕ
  server_lines lat lon content = length (candidates F lat lon (lines 510 content) no_buffers)

  pub servers_of_few :
      (lat lon : Number) (content : Bytes)
      → length (servers_of lat lon content) ≤ server_lines lat lon content
  servers_of_few lat lon content =
      length-skip_unnamed F (candidates F lat lon (lines 510 content) no_buffers)

  abbrev fresh : ℕ → Progress F
  fresh n = record { slots = replicate n (zero_server F); buffers = no_buffers; count = 0 }

  zeros-Holds : (n m : ℕ) → Holds F (replicate n (zero_server F)) (take m [])
  zeros-Holds zero zero = tt
  zeros-Holds zero (suc m) = tt
  zeros-Holds (suc n) zero = (refl, zeros-Holds n zero)
  zeros-Holds (suc n) (suc m) = (refl, zeros-Holds n zero)

  fresh-Tracks : (n : ℕ) → Tracks F n [] 0 (fresh n)
  fresh-Tracks n = record {
    room = length-replicate n (zero_server F);
    held = zeros-Holds n n;
    counted = refl;
  }

  length-drop : (n : ℕ) (cs : List (Candidate F)) → length (drop n cs) ≡ length cs - n
  length-drop zero cs = omega arith
  length-drop (suc n) [] = omega arith
  length-drop (suc n) (c ∷ cs) = omega (arith, length-drop n cs)

  final-Tracks :
      (lat lon : Number) (content : Bytes) (n : ℕ)
      → All (IsNamed F) (servers_of lat lon content)
      → Tracks F n
          (rank_all F (servers_of lat lon content) [])
          (0 + server_lines lat lon content)
          (read_lines F lat lon (lines 510 content) (fresh n))
  final-Tracks lat lon content n named =
      read_lines-Tracks_skip F lat lon (lines 510 content) n 0 (fresh n) named (fresh-Tracks n)

-- What `get_nearest_server` promises of a list with `count` lines that start with `<server` and the
-- servers `all`: the code is 1 exactly if there is such a line, the first slots
-- of the table hold the servers `best` and the other slots are free, `best` and the servers `rest` that
-- are left out are together the servers of the list, and they are in order of distance; servers are
-- left out only where the table is full, whose size stays.
pub record IsNearest (F : Double) (n count : ℕ) (all : List (Candidate F))
    (r : ℕ × List (ServerData F)) : Type 0 where
  pub best : List (Candidate F)
  pub rest : List (Candidate F)
  pub held : Holds F r.1 best
  pub complete : Perm (best ++ rest) all
  pub ranked : IsRanked F (best ++ rest)
  pub left_out : length rest ≡ length all - n
  pub together : length best + length rest ≡ length all
  pub size : length r.1 ≡ n
  pub code : r.0 ≡ (if ltb 0 count then 1 else 0)

pub get_nearest_server-IsNearest :
    (F : Double) (fs : Files) (lat lon : F.Number) (content : Bytes) (n : ℕ)
    → ((a b : F.Number) → F.le a b ≡ false → F.le b a ≡ true)
    → ((a b c : F.Number) → F.le a b ≡ true → F.le b c ≡ true → F.le a c ≡ true)
    → fs servers_path ≡ some content
    → All (IsNamed F) (servers_of F lat lon content)
    → IsNearest F n
        (server_lines F lat lon content)
        (servers_of F lat lon content)
        (get_nearest_server F fs lat lon (replicate n (zero_server F)))
unfolding get_nearest_server
get_nearest_server-IsNearest F fs lat lon content n total trans e named =
    rw (e, get_nearest_server)
      (record {
        best = take n ranked;
        rest = drop n ranked;
        held = held;
        complete = rw (take-append-drop n ranked) (
            subst (Perm ranked) (append-nil (servers_of F lat lon content))
              (rank_all-perm F (servers_of F lat lon content) []));
        ranked =
            rw (take-append-drop n ranked)
              (rank_all-IsRanked F total trans (servers_of F lat lon content) [] tt);
        left_out =
            omega
              (arith, length-drop F n ranked, length-rank_all F (servers_of F lat lon content) []);
        together = omega (arith, split, length-rank_all F (servers_of F lat lon content) []);
        size = room;
        code = rw (counted) (ap (λ m. if ltb 0 m then 1 else 0) (omega arith));
      })
  where
    open (final-Tracks F lat lon content n named) use {room, held, counted}

    ranked : List (Candidate F)
    ranked = rank_all F (servers_of F lat lon content) []

    split : length (take n ranked) + length (drop n ranked) ≡ length ranked
    split =
        sym (length-append (take n ranked) (drop n ranked)) ∙ ap length (take-append-drop n ranked)
