-- ===== src/Speedtest/Nearest/Tags.antt =====
-- Lines of the list that give no URL, as `<servers>` does: they are counted as servers.
use gemtek_sw_training.Prelude.{
  ◌==◌, if◌then◌else◌, Bool-cases, length, take, All, ℕ, zero, suc, ◌+◌, ◌≤◌, ◌≡◌, refl, sym, ap,
  ◌∙◌, inl, inr, Bool, true, false, List, [], ◌∷◌, arith, Bytes,
}
use gemtek_sw_training.CString.{c_str}
use gemtek_sw_training.Speedtest.Double.{Double}
use gemtek_sw_training.Speedtest.Server.{ServerData}
use gemtek_sw_training.Speedtest.Nearest.{
  Candidate, is_free, store, insert_server, Buffers, Progress, read_server, read_lines, candidate,
}
use gemtek_sw_training.Speedtest.Nearest.Table.{IsNamed, Holds, length-insert_server}
use gemtek_sw_training.Speedtest.Nearest.Order.{rank_all}
use gemtek_sw_training.Speedtest.Nearest.Ranking.{
  candidates, is_server, candidates_server, candidates_other, read_line_server, read_line_other,
  Tracks, read_lines-Tracks,
}

module _ (F : Double) where
  open F use {Number, le}

  -- whether `sscanf` has read no URL so far
  abbrev pub is_unnamed : Candidate F → Bool
  is_unnamed c = elim c.url [ [] ↦ true | x ∷ r ↦ false ]

  -- What is left of the list behind its first lines that give no URL.
  unfoldable pub skip_unnamed : List (Candidate F) → List (Candidate F)
  skip_unnamed [] = []
  skip_unnamed (c ∷ cs) = let rest = skip_unnamed cs in if is_unnamed c then rest else c ∷ cs

  pub length-skip_unnamed : (cs : List (Candidate F)) → length (skip_unnamed cs) ≤ length cs
  unfolding skip_unnamed
  length-skip_unnamed [] = omega arith
  length-skip_unnamed (c ∷ cs) = elim (Bool-cases (is_unnamed c)) [
    | inl e ↦ rw e (omega (arith, length-skip_unnamed cs))
    | inr e ↦ rw e (omega arith)
  ]

  take_nil : (n : ℕ) → take {A = Candidate F} n [] ≡ []
  take_nil zero = refl
  take_nil (suc n) = refl

  store_unnamed :
      (c : Candidate F) (s : ServerData F) → is_unnamed c ≡ true → is_free F (store F c s) ≡ true
  store_unnamed c s e = by_url c.url e
    where
      by_url :
          (u : Bytes)
          → ◌≡◌ {A = Bool} (elim u [ [] ↦ true | x ∷ r ↦ false ]) true
          → ◌≡◌ {A = Bool} (elim u [ [] ↦ true | x ∷ r ↦ x == 0 ]) true
      by_url [] e = refl
      by_url (x ∷ r) e = absurd cc

  -- Without a URL the slot stays free.
  insert_unnamed :
      (c : Candidate F) (slots : List (ServerData F))
      → is_unnamed c ≡ true
      → Holds F slots []
      → Holds F (insert_server F c slots) []
  unfolding insert_server
  insert_unnamed c [] e h = tt
  insert_unnamed c (s ∷ rest) e h = rw h.0 (store_unnamed c s e, h.1)

  unnamed-Tracks :
      (c : Candidate F) (b : Buffers F) (n seen : ℕ) (p : Progress F)
      → is_unnamed c ≡ true
      → Tracks F n [] seen p
      → Tracks F n []
          (seen + 1)
          (record { slots = insert_server F c p.slots; buffers = b; count = p.count + 1 })
  unnamed-Tracks c b n seen p e t =
      let free : Holds F p.slots [] = rw (take_nil n) at t.held in
      record {
        room = length-insert_server F c p.slots ∙ t.room;
        held = rw (take_nil n) (insert_unnamed c p.slots e free);
        counted = omega (arith, t.counted);
      }

  skip_named :
      (c : Candidate F) (cs : List (Candidate F))
      → is_unnamed c ≡ false
      → skip_unnamed (c ∷ cs) ≡ c ∷ cs
  unfolding skip_unnamed
  skip_named c cs e = rw e refl

  pub skip_one :
      (c : Candidate F) (cs : List (Candidate F))
      → is_unnamed c ≡ true
      → skip_unnamed (c ∷ cs) ≡ skip_unnamed cs
  unfolding skip_unnamed
  skip_one c cs e = rw e refl

  -- Nothing is left out where every server has a URL.
  pub skip_unnamed-IsNamed : (cs : List (Candidate F)) → All (IsNamed F) cs → skip_unnamed cs ≡ cs
  unfolding skip_unnamed
  skip_unnamed-IsNamed [] h = refl
  skip_unnamed-IsNamed (c ∷ cs) ((x, r, e, k), hs) = skip_named c cs (rw e refl)

  pub read_lines-Tracks_skip :
      (lat lon : Number) (ls : List Bytes) (n seen : ℕ) (p : Progress F)
      → All (IsNamed F) (skip_unnamed (candidates F lat lon ls p.buffers))
      → Tracks F n [] seen p
      → Tracks F n
          (rank_all F (skip_unnamed (candidates F lat lon ls p.buffers)) [])
          (seen + length (candidates F lat lon ls p.buffers))
          (read_lines F lat lon ls p)
  unfolding read_lines
  read_lines-Tracks_skip lat lon [] n seen p named t =
      unfold candidates skip_unnamed rank_all in
      record { room = t.room; held = t.held; counted = omega (arith, t.counted) }
  read_lines-Tracks_skip lat lon (l ∷ ls) n seen p named t = elim (Bool-cases (is_server F l)) [
    | inr e ↦
        rw (candidates_other F lat lon l ls p.buffers e, read_line_other F lat lon l p e)
          (read_lines-Tracks_skip lat lon ls n seen p
            (rw (candidates_other F lat lon l ls p.buffers e) at named) t)
    | inl e ↦
        let b = read_server F (c_str l) p.buffers in
        let c = candidate F lat lon b in
        let cs = candidates F lat lon ls b in
        let e' : candidates F lat lon (l ∷ ls) p.buffers ≡ c ∷ cs =
          candidates_server F lat lon l ls p.buffers e in
        elim (Bool-cases (is_unnamed c)) [
          | inr u ↦
              let same : skip_unnamed (candidates F lat lon (l ∷ ls) p.buffers)
                  ≡ candidates F lat lon (l ∷ ls) p.buffers =
                ap skip_unnamed e' ∙ skip_named c cs u ∙ sym e' in
              rw same (read_lines-Tracks F lat lon (l ∷ ls) n [] seen p (rw same at named) t)
          | inl u ↦
              let less : skip_unnamed (candidates F lat lon (l ∷ ls) p.buffers) ≡ skip_unnamed cs =
                ap skip_unnamed e' ∙ skip_one c cs u in
              let more : seen + suc (length cs) ≡ seen + 1 + length cs = omega arith in
              rw (less, e', more, read_line_server F lat lon l p e)
                (read_lines-Tracks_skip lat lon ls n (seen + 1)
                  (record { slots = insert_server F c p.slots; buffers = b; count = p.count + 1 })
                  (rw less at named) (unnamed-Tracks c b n seen p u t))
        ]
  ]
