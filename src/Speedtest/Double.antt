-- ===== src/Speedtest/Double.antt =====
-- `double` as the programs use it: the language defines its operations, and nothing is assumed of
-- them here but their types. A statement that needs an order names the laws that it uses.
use gemtek_sw_training.Prelude.{Bool, ℤ, Bytes}

pub record Double : Type 1 where
  pub Number : Type 0
  pub of_int : ℤ → Number
  pub to_int : Number → ℤ
  pub add : Number → Number → Number
  pub sub : Number → Number → Number
  pub mul : Number → Number → Number
  pub div : Number → Number → Number
  pub pow : Number → Number → Number
  pub atan2 : Number → Number → Number
  pub sin : Number → Number
  pub cos : Number → Number
  pub sqrt : Number → Number
  pub pi : Number
  -- `a <= b`
  pub le : Number → Number → Bool
  pub atof : Bytes → Number
