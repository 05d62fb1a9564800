-- ===== src/Fixed.antt =====
-- Fixed-point numbers with three decimals, and a cut-off series in place of the logarithm: a value
-- of the interface Float on which the models run in tests.
use telemetry_search_engine.Common.{
  ℕ, zero, suc, ◌+◌, ◌-◌, ◌*◌, ◌/◌, ◌^◌, ◌≡◌, ap, Bool, true, false, not, ltb, leb, if◌then◌else◌,
  arith,
}
use telemetry_search_engine.Common.Int.{ℤ, pos, negsuc}
use telemetry_search_engine.Float.{Float, FloatOrder, FloatSum}

abbrev magnitude : ℤ → ℕ
magnitude (pos n) = n
magnitude (negsuc n) = n + 1

abbrev opposite : ℤ → ℤ
opposite (pos zero) = pos 0
opposite (pos (suc n)) = negsuc n
opposite (negsuc n) = pos (n + 1)

-- a - b
abbrev minus : ℕ → ℕ → ℤ
minus a b = if leb b a then pos (a - b) else negsuc (b - a - 1)

abbrev plus : ℤ → ℤ → ℤ
plus (pos a) (pos b) = pos (a + b)
plus (pos a) (negsuc b) = minus a (b + 1)
plus (negsuc a) (pos b) = minus b (a + 1)
plus (negsuc a) (negsuc b) = negsuc (a + b + 1)

abbrev below : ℤ → ℤ → Bool
below (pos a) (pos b) = ltb a b
below (pos a) (negsuc b) = false
below (negsuc a) (pos b) = true
below (negsuc a) (negsuc b) = ltb b a

-- Products and quotients of magnitudes: the tests multiply and divide no negative numbers.
abbrev pub fixed : Float
fixed = record {
  F = ℤ;
  of_nat = λ n. pos (n * 1000);
  decimal = λ m k. pos (m * 1000 / 10 ^ k);
  add = plus;
  sub = λ a b. plus a (opposite b);
  mul = λ a b. pos (magnitude a * magnitude b / 1000);
  div = λ a b. pos (magnitude a * 1000 / magnitude b);
  neg = opposite;
  log = λ a. plus a (negsuc 999);
  round32 = λ a. a;
  lt = below;
  le = λ a b. not (below b a);
  is_nan = λ a. false;
}

below_asym : (x y : ℤ) → below x y ≡ true → below y x ≡ false
below_asym (pos a) (pos b) h = ground arith
below_asym (negsuc a) (negsuc b) h = ground arith
below_asym (pos a) (negsuc b) h = ground arith
below_asym (negsuc a) (pos b) h = ground arith

below_trans : (x y z : ℤ) → below y x ≡ false → below z y ≡ false → below z x ≡ false
below_trans (pos a) (pos b) (pos c) p q = ground arith
below_trans _ _ _ p q = ground arith

pub fixed-FloatOrder : FloatOrder fixed
fixed-FloatOrder = record {
  asym = below_asym;
  nan_left = λ x y h. cc;
  nan_right = λ x y h. cc;
  negative_trans = λ x y z _ p q. below_trans x y z p q;
}

below_first : (x : ℤ) → below (pos 0) x ≡ true → below (pos 0) (plus (pos 0) x) ≡ true
below_first (pos a) h = ground arith
below_first (negsuc a) h = cc

below_sum :
    (x y : ℤ) → below (pos 0) x ≡ true → below (pos 0) y ≡ true → below (pos 0) (plus x y) ≡ true
below_sum (pos a) (pos b) h k = ground arith
below_sum (pos a) (negsuc b) h k = cc
below_sum (negsuc a) y h k = cc

pub fixed-FloatSum : FloatSum fixed
fixed-FloatSum = record {
  first_pos = below_first;
  add_pos = below_sum;
  lt_not_le = λ x y h. ap not h;
}
