-- ===== src/Float.antt =====
-- Go's float64 and float32 arithmetic, which is not implemented here: the values, the operations
-- that the ranking uses and the order are parameters of the models that compute scores.
use telemetry_search_engine.Common.{ℕ, ◌≡◌, Bool, true, false, not, ◌&&◌, ◌||◌}

pub record Float : Type 1 where
  pub F : Type 0
  -- float64(n) of an integer that is not negative
  pub of_nat : ℕ → F
  -- the constant m / 10^k, rounded once
  pub decimal : ℕ → ℕ → F
  pub add : F → F → F
  pub sub : F → F → F
  pub mul : F → F → F
  pub div : F → F → F
  pub neg : F → F
  -- math.Log
  pub log : F → F
  -- float32(x), read as a float64 again
  pub round32 : F → F
  -- x < y
  pub lt : F → F → Bool
  -- x <= y
  pub le : F → F → Bool
  pub is_nan : F → Bool

-- What IEEE 754 says of `<`, NaN included.
pub record FloatOrder (fl : Float) : Type 0 where
  pub asym : (x y : fl.F) → fl.lt x y ≡ true → fl.lt y x ≡ false
  pub nan_left : (x y : fl.F) → fl.is_nan x ≡ true → fl.lt x y ≡ false
  pub nan_right : (x y : fl.F) → fl.is_nan y ≡ true → fl.lt x y ≡ false
  -- among numbers, what is not less is transitive
  pub negative_trans :
      (x y z : fl.F)
      → fl.is_nan y ≡ false
      → fl.lt y x ≡ false
      → fl.lt z y ≡ false
      → fl.lt z x ≡ false

-- What IEEE 754 says of sums of positive numbers: an addition does not underflow.
pub record FloatSum (fl : Float) : Type 0 where
  pub first_pos :
      (x : fl.F)
      → fl.lt (fl.of_nat 0) x ≡ true
      → fl.lt (fl.of_nat 0) (fl.add (fl.of_nat 0) x) ≡ true
  pub add_pos :
      (x y : fl.F)
      → fl.lt (fl.of_nat 0) x ≡ true
      → fl.lt (fl.of_nat 0) y ≡ true
      → fl.lt (fl.of_nat 0) (fl.add x y) ≡ true
  pub lt_not_le : (x y : fl.F) → fl.lt x y ≡ true → fl.le y x ≡ false

module _ (fl : Float) where
  -- cmp.Compare(x, y) < 0: a NaN is below every number.
  unfoldable pub float_less : fl.F → fl.F → Bool
  float_less x y = fl.is_nan x && not (fl.is_nan y) || fl.lt x y
