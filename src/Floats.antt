-- ===== src/Floats.antt =====
-- float64, as the parameter that the scaling arithmetic is written over: the operations of the
-- language that the code calls, and what it relies on of IEEE 754 double arithmetic.
pub mod Exact
use legacy_messenger_ecs_con.Base.{ℕ, ◌+◌, ◌-◌, ◌/◌, ◌≤◌, ◌<◌, ◌≡◌, Bool, true, ltb, leb}

pub record Float64 : Type 1 where
  pub F : Type 0
  pub of_int : ℕ → F  -- float64(n)
  pub decimal : ℕ → ℕ → F  -- the literal m / 10 ^ k: 0.8 is decimal 8 1
  pub mul : F → F → F
  pub div : F → F → F
  pub ceil_int : F → ℕ  -- int(math.Ceil(x)) of a number that is not negative
  pub trunc_int : F → ℕ  -- int(x) of a number that is not negative
  pub round : F → F  -- math.Round of a number that is not negative
  pub lt : F → F → Bool
  pub le : F → F → Bool

-- 2 ^ 53: the whole numbers below it are floats.
abbrev pub exact_limit : ℕ
exact_limit = 9_007_199_254_740_992

-- Conversion, division, comparison and rounding up of whole numbers below 2 ^ 53 are exact in what the
-- code reads of them, and division by a positive number and rounding up keep the order.
pub record IsIeee (fl : Float64) : Type 0 where
  pub le-of_int :
      (a b : ℕ) → a < exact_limit → b < exact_limit → fl.le (fl.of_int a) (fl.of_int b) ≡ leb a b
  pub ratio-lt-one :
      (a b : ℕ)
      → 0 < b
      → a < exact_limit
      → b < exact_limit
      → fl.lt (fl.div (fl.of_int a) (fl.of_int b)) (fl.of_int 1) ≡ ltb a b
  pub ceil-ratio :
      (a b : ℕ)
      → 0 < b
      → a < exact_limit
      → b < exact_limit
      → fl.ceil_int (fl.div (fl.of_int a) (fl.of_int b)) ≡ (a + b - 1) / b
  pub div_mono :
      (a b : ℕ) (z : fl.F)
      → a ≤ b
      → fl.lt (fl.of_int 0) z ≡ true
      → fl.le (fl.div (fl.of_int a) z) (fl.div (fl.of_int b) z) ≡ true
  pub ceil_mono :
      (x y : fl.F)
      → fl.le x y ≡ true
      → fl.le y (fl.of_int exact_limit) ≡ true
      → fl.ceil_int x ≤ fl.ceil_int y
