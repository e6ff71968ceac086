-- ===== src/Speedtest/Nearest/Ranking.antt =====
-- The loop over the lines of the list, and what it makes of the table.
use gemtek_sw_training.Prelude.{
  if◌then◌else◌, Bool-cases, length, take, All, ℕ, suc, ◌+◌, ◌≡◌, refl, ◌∙◌, inl, inr, Bool, true,
  false, List, [], ◌∷◌, arith, Bytes, codes,
}
use mathlib.Core.Path.{subst}
use gemtek_sw_training.CString.{starts_with, c_str}
use gemtek_sw_training.Speedtest.Double.{Double}
use gemtek_sw_training.Speedtest.Nearest.{
  Candidate, insert_server, Buffers, Progress, read_server, read_line, read_lines, candidate,
}
use gemtek_sw_training.Speedtest.Nearest.Table.{
  IsNamed, rank, Holds, insert-Holds, length-insert_server, take-rank,
}
use gemtek_sw_training.Speedtest.Nearest.Order.{rank_all}

module _ (F : Double) where
  open F use {Number, le}

  -- The servers of the list, as `sscanf` reads them into its buffers `b`, in the order of the file.
  unfoldable pub candidates : Number → Number → List Bytes → Buffers F → List (Candidate F)
  candidates lat lon [] b = []
  candidates lat lon (l ∷ ls) b =
      let b' = read_server F (c_str l) b in
      let here = candidate F lat lon b' ∷ candidates lat lon ls b' in
      let skipped = candidates lat lon ls b in
      if starts_with (codes "<server") (c_str l) then here else skipped

  unfoldable pub is_server : Bytes → Bool
  is_server l = starts_with (codes "<server") (c_str l)

  pub candidates_server :
      (lat lon : Number) (l : Bytes) (ls : List Bytes) (b : Buffers F)
      → is_server l ≡ true
      → candidates lat lon (l ∷ ls) b
        ≡ candidate F lat lon (read_server F (c_str l) b)
          ∷ candidates lat lon ls (read_server F (c_str l) b)
  unfolding candidates is_server
  candidates_server lat lon l ls b e = rw e refl

  pub candidates_other :
      (lat lon : Number) (l : Bytes) (ls : List Bytes) (b : Buffers F)
      → is_server l ≡ false
      → candidates lat lon (l ∷ ls) b ≡ candidates lat lon ls b
  unfolding candidates is_server
  candidates_other lat lon l ls b e = rw e refl

  pub read_line_server :
      (lat lon : Number) (l : Bytes) (p : Progress F)
      → is_server l ≡ true
      → read_line F lat lon (c_str l) p ≡ record {
        slots = insert_server F (candidate F lat lon (read_server F (c_str l) p.buffers)) p.slots;
        buffers = read_server F (c_str l) p.buffers;
        count = p.count + 1;
      }
  unfolding read_line is_server
  read_line_server lat lon l p e = rw e refl

  pub read_line_other :
      (lat lon : Number) (l : Bytes) (p : Progress F)
      → is_server l ≡ false
      → read_line F lat lon (c_str l) p ≡ p
  unfolding read_line is_server
  read_line_other lat lon l p e = rw e refl

  -- The table holds the first of the ranking, and the count is that of the servers.
  pub record Tracks (n : ℕ) (ranked : List (Candidate F)) (seen : ℕ) (p : Progress F) : Type 0 where
    pub room : length p.slots ≡ n
    pub held : Holds F p.slots (take n ranked)
    pub counted : p.count ≡ seen

  insert-Tracks :
      (c : Candidate F) (b : Buffers F) (n : ℕ) (ranked : List (Candidate F)) (seen : ℕ)
      (p : Progress F)
      → IsNamed F c
      → Tracks n ranked seen p
      → Tracks n
          (rank F c ranked)
          (seen + 1)
          (record { slots = insert_server F c p.slots; buffers = b; count = p.count + 1 })
  insert-Tracks c b n ranked seen p named t = record {
    room = length-insert_server F c p.slots ∙ t.room;
    held = rw (← take-rank F n c ranked) (
        subst (λ m. Holds F (insert_server F c p.slots) (take m (rank F c (take n ranked)))) t.room
          (insert-Holds F c p.slots (take n ranked) named t.held));
    counted = omega (arith, t.counted);
  }

  pub read_lines-Tracks :
      (lat lon : Number) (ls : List Bytes) (n : ℕ) (ranked : List (Candidate F)) (seen : ℕ)
      (p : Progress F)
      → All (IsNamed F) (candidates lat lon ls p.buffers)
      → Tracks n ranked seen p
      → Tracks n
          (rank_all F (candidates lat lon ls p.buffers) ranked)
          (seen + length (candidates lat lon ls p.buffers))
          (read_lines F lat lon ls p)
  unfolding read_lines rank_all
  read_lines-Tracks lat lon [] n ranked seen p named t =
      unfold candidates in
      record { room = t.room; held = t.held; counted = omega (arith, t.counted) }
  read_lines-Tracks lat lon (l ∷ ls) n ranked seen p named t = elim (Bool-cases (is_server l)) [
    | inl e ↦
        let named' : All (IsNamed F) (
            candidate F lat lon (read_server F (c_str l) p.buffers)
            ∷ candidates lat lon ls (read_server F (c_str l) p.buffers)) =
          rw (candidates_server lat lon l ls p.buffers e) at named in
        let more : seen + suc (length (candidates lat lon ls (read_server F (c_str l) p.buffers)))
            ≡ seen + 1 + length (candidates lat lon ls (read_server F (c_str l) p.buffers)) =
          omega arith in
        rw (candidates_server lat lon l ls p.buffers e, read_line_server lat lon l p e, more)
          (read_lines-Tracks lat lon ls n
            (rank F (candidate F lat lon (read_server F (c_str l) p.buffers)) ranked) (seen + 1) _
            named'.1 (insert-Tracks _ _ n ranked seen p named'.0 t))
    | inr e ↦
        rw (candidates_other lat lon l ls p.buffers e, read_line_other lat lon l p e)
          (read_lines-Tracks lat lon ls n ranked seen p
            (rw (candidates_other lat lon l ls p.buffers e) at named) t)
  ]
