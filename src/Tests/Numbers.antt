-- ===== src/Tests/Numbers.antt =====
-- The theorem on `ftoa` at a concrete input.
use gemtek_sw_training.Prelude.{
  leb, ℕ, ◌+◌, ◌-◌, ◌*◌, ◌/◌, ◌≡◌, refl, pos, pos_part, ◌∷◌, ◌++◌, Bytes,
}
use gemtek_sw_training.Speedtest.Double.{Double}
use gemtek_sw_training.Common.Decimal.{IsDecimal}
use gemtek_sw_training.Common.Ftoa.{ftoa, fraction, ftoa-IsDecimal}

-- Numbers in hundredths.
abbrev hundredths : Double
hundredths = record {
  Number = ℕ;
  of_int = λ z. pos_part z * 100;
  to_int = λ n. pos (n / 100);
  add = ◌+◌;
  sub = ◌-◌;
  mul = λ a b. a * b / 100;
  div = λ a b. a * 100 / b;
  pow = λ a b. a * a / 100;
  atan2 = λ a b. a;
  sin = λ a. a;
  cos = λ a. a;
  sqrt = λ a. a;
  pi = 314;
  le = leb;
  atof = λ s. 0;
}

quarter : fraction hundredths 325 2 ≡ pos 25
unfolding fraction
quarter = refl

-- 3.25
ftoa-IsDecimal_example :
    (whole : Bytes) × (places : Bytes) × (ftoa hundredths 325 2 ≡ whole ++ b'.' ∷ places)
    × IsDecimal 3 0 whole
    × IsDecimal 25 2 places
ftoa-IsDecimal_example = ftoa-IsDecimal hundredths 325 1 3 25 refl quarter
