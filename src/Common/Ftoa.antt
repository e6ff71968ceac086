-- ===== src/Common/Ftoa.antt =====
-- `ftoa` of Mini-Project/Application/src/common.c: a number with digits behind the point.
use gemtek_sw_training.Prelude.{
  ◌==◌, if◌then◌else◌, ne→==_false, ℕ, suc, ◌≡◌, refl, ap, ℤ, pos, ◌∷◌, ◌++◌, arith, Bytes,
}
use gemtek_sw_training.Speedtest.Double.{Double}
use gemtek_sw_training.Common.{int_to_str}
use gemtek_sw_training.Common.Decimal.{IsDecimal, int_to_str-IsDecimal}

module _ (F : Double) where
  open F use {Number, of_int, to_int, sub, mul, pow}

  -- `fpart * pow(10, afterpoint)`, as an `int`
  unfoldable pub fraction : Number → ℕ → ℤ
  fraction n afterpoint =
      to_int (mul (sub n (of_int (to_int n))) (pow (of_int (pos 10)) (of_int (pos afterpoint))))

  -- The string that is left in `res`.
  pub ftoa : Number → ℕ → Bytes
  unfolding fraction
  ftoa n afterpoint =
      let whole = (int_to_str (to_int n) 0).0 in
      if afterpoint == 0
      then whole
      else whole ++ b'.' ∷ (int_to_str (fraction n afterpoint) afterpoint).0

-- For a number whose whole part `a` and scaled fraction `b` are not negative, and at least one place
-- behind the point, `ftoa` writes the decimal digits of `a`, a point, and those of `b`, padded with
-- zeros on the left to the number of places.
pub ftoa-IsDecimal :
    (F : Double) (n : F.Number) (d a b : ℕ)
    → F.to_int n ≡ pos a
    → fraction F n (suc d) ≡ pos b
    → (whole : Bytes) × (places : Bytes) × (ftoa F n (suc d) ≡ whole ++ b'.' ∷ places)
      × IsDecimal a 0 whole
      × IsDecimal b (suc d) places
unfolding ftoa
ftoa-IsDecimal F n d a b e h = (
  (int_to_str (pos a) 0).0,
  (int_to_str (pos b) (suc d)).0,
  rw
      (
        ne→==_false (suc d) 0 (omega arith),
        ap (λ (z : ℤ). (int_to_str z 0).0) e,
        ap (λ (z : ℤ). (int_to_str z (suc d)).0) h,
      )
      refl,
  (int_to_str-IsDecimal a 0).0,
  (int_to_str-IsDecimal b (suc d)).0,
)
