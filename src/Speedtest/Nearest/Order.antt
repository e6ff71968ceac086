-- ===== src/Speedtest/Nearest/Order.antt =====
-- The ranking of the servers by distance: it holds them all, in order.
use gemtek_sw_training.Prelude.{
  Bool-cases, length, All, All-map, suc, ◌+◌, ◌≡◌, refl, inl, inr, true, false, List, [], ◌∷◌, ◌++◌,
  arith,
}
use mathlib.Core.List.{Perm, perm_middle}
use mathlib.Core.List.Perm
use gemtek_sw_training.Speedtest.Double.{Double}
use gemtek_sw_training.Speedtest.Nearest.{Candidate}
use gemtek_sw_training.Speedtest.Nearest.Table.{rank}

module _ (F : Double) where
  open F use {Number, le}

  unfoldable pub rank_all : List (Candidate F) → List (Candidate F) → List (Candidate F)
  rank_all [] ranked = ranked
  rank_all (c ∷ cs) ranked = rank_all cs (rank F c ranked)

  -- no server is nearer than one before it
  abbrev pub IsRanked : List (Candidate F) → Type 0
  IsRanked [] = Unit
  IsRanked (c ∷ cs) = All (λ (d : Candidate F). le c.distance d.distance ≡ true) cs × IsRanked cs

  rank-perm : (c : Candidate F) (cs : List (Candidate F)) → Perm (rank F c cs) (c ∷ cs)
  unfolding rank
  rank-perm c [] = Perm.refl (c ∷ [])
  rank-perm c (d ∷ ds) = elim (Bool-cases (le c.distance d.distance)) [
    | inl e ↦ rw e (Perm.refl (c ∷ d ∷ ds))
    | inr e ↦ rw e (Perm.trans (Perm.cons d (rank-perm c ds)) (Perm.swap c d ds))
  ]

  pub rank_all-perm : (cs ranked : List (Candidate F)) → Perm (rank_all cs ranked) (cs ++ ranked)
  unfolding rank_all
  rank_all-perm [] ranked = Perm.refl ranked
  rank_all-perm (c ∷ cs) ranked =
      Perm.trans (rank_all-perm cs (rank F c ranked))
        (Perm.trans (Perm.append_left cs (rank-perm c ranked)) (perm_middle cs ranked))

  length-rank : (c : Candidate F) (cs : List (Candidate F)) → length (rank F c cs) ≡ suc (length cs)
  unfolding rank
  length-rank c [] = refl
  length-rank c (d ∷ ds) = ground (arith, length-rank c ds)

  pub length-rank_all :
      (cs ranked : List (Candidate F)) → length (rank_all cs ranked) ≡ length cs + length ranked
  unfolding rank_all
  length-rank_all [] ranked = omega arith
  length-rank_all (c ∷ cs) ranked =
      omega (arith, length-rank_all cs (rank F c ranked), length-rank c ranked)

  All-rank :
      (P : Candidate F → Type 0) (c : Candidate F) (cs : List (Candidate F))
      → P c
      → All P cs
      → All P (rank F c cs)
  unfolding rank
  All-rank P c [] pc h = (pc, tt)
  All-rank P c (d ∷ ds) pc h = elim (Bool-cases (le c.distance d.distance)) [
    | inl e ↦ rw e (pc, h)
    | inr e ↦ rw e (h.0, All-rank P c ds pc h.1)
  ]

  -- The order of the distances, as it is without NaN.
  module _ (total : (a b : Number) → le a b ≡ false → le b a ≡ true)
      (trans : (a b c : Number) → le a b ≡ true → le b c ≡ true → le a c ≡ true) where
    rank-IsRanked :
        (c : Candidate F) (cs : List (Candidate F)) → IsRanked cs → IsRanked (rank F c cs)
    unfolding rank
    rank-IsRanked c [] h = (tt, tt)
    rank-IsRanked c (d ∷ ds) h = elim (Bool-cases (le c.distance d.distance)) [
      | inl e ↦ rw e ((e, All-map ds (λ x p. trans c.distance d.distance x.distance e p) h.0), h)
      | inr e ↦ rw e (
        All-rank (λ (x : Candidate F). le d.distance x.distance ≡ true) c ds
            (total c.distance d.distance e) h.0,
        rank-IsRanked c ds h.1,
      )
    ]

    pub rank_all-IsRanked :
        (cs ranked : List (Candidate F)) → IsRanked ranked → IsRanked (rank_all cs ranked)
    unfolding rank_all
    rank_all-IsRanked [] ranked h = h
    rank_all-IsRanked (c ∷ cs) ranked h =
        rank_all-IsRanked cs (rank F c ranked) (rank-IsRanked c ranked h)
