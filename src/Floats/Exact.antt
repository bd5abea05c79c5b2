-- ===== src/Floats/Exact.antt =====
-- Exact fractions as an instance of the float parameter: what is assumed of float64 can hold.
use legacy_messenger_ecs_con.Base.{
  ℕ, suc, ◌+◌, ◌-◌, ◌*◌, ◌/◌, ◌%◌, ◌^◌, ◌==◌, if◌then◌else◌, ◌≤◌, ◌<◌, ◌≡◌, true, ltb, leb, arith,
  leb→le, le→leb,
}
use native.Mathlib.Nat.{
  mul-le-mul_right, lt-mul-div-succ, div-lt_iff_lt-mul, le_of_mul-le-mul_right,
}
use legacy_messenger_ecs_con.Floats.{Float64, IsIeee}

-- n / (d + 1).
pub record Fraction : Type 0 where
  pub num : ℕ
  pub den_pred : ℕ

abbrev den : Fraction → ℕ
den x = suc x.den_pred

-- A whole product is a whole number again.
abbrev reduced : ℕ → ℕ → Fraction
reduced n d =
    if n % d == 0
    then record { num = n / d; den_pred = 0 }
    else record { num = n; den_pred = d - 1 }

abbrev pub fractions : Float64
fractions = record {
  F = Fraction;
  of_int = λ n. record { num = n; den_pred = 0 };
  decimal = λ m k. record { num = m; den_pred = 10 ^ k - 1 };
  mul = λ x y. reduced (x.num * y.num) (den x * den y);
  div = λ x y. record { num = x.num * den y; den_pred = den x * y.num - 1 };
  ceil_int = λ x. (x.num + x.den_pred) / den x;
  trunc_int = λ x. x.num / den x;
  round = λ x. record { num = (2 * x.num + den x) / (2 * den x); den_pred = 0 };
  lt = λ x y. ltb (x.num * den y) (y.num * den x);
  le = λ x y. leb (x.num * den y) (y.num * den x);
}

le-of_int : (a b : ℕ) → leb (a * 1) (b * 1) ≡ leb a b
le-of_int a b = ground arith

ratio-lt-one : (a b : ℕ) → 0 < b → ltb (a * 1 * 1) (1 * suc (1 * b - 1)) ≡ ltb a b
ratio-lt-one a b h = ground arith

pred-suc : (b : ℕ) → 0 < b → suc (1 * b - 1) ≡ b
pred-suc b h = omega arith

ceil-ratio : (a b : ℕ) → 0 < b → (a * 1 + (1 * b - 1)) / suc (1 * b - 1) ≡ (a + b - 1) / b
ceil-ratio a b h = let top : a * 1 + (1 * b - 1) ≡ a + b - 1 = omega arith in rw (pred-suc b h, top)

div_mono : (a b d k : ℕ) → a ≤ b → leb (a * d * k) (b * d * k) ≡ true
div_mono a b d k h = le→leb (a * d * k) (b * d * k) (mul-le-mul_right k (mul-le-mul_right d h))

-- A numerator is at most the rounded-up quotient times the denominator.
num-le-ceil : (m e : ℕ) → m ≤ (m + e) / suc e * suc e
num-le-ceil m e = let above = lt-mul-div-succ (m + e) {b = suc e} (omega arith) in grind arith

ceil-le_of_num-le : (n d q : ℕ) → n ≤ q * suc d → (n + d) / suc d ≤ q
ceil-le_of_num-le n d q h =
    let below = (div-lt_iff_lt-mul {k = suc d} {x = n + d} {y = suc q} (omega arith)).1 in
    omega (arith, below (omega arith))

ceil_mono : (n d m e : ℕ) → n * suc e ≤ m * suc d → (n + d) / suc d ≤ (m + e) / suc e
ceil_mono n d m e h =
    let q = (m + e) / suc e in
    let scaled : m * suc d ≤ q * suc e * suc d = mul-le-mul_right (suc d) (num-le-ceil m e) in
    let swapped : q * suc e * suc d ≡ q * suc d * suc e = omega arith in
    ceil-le_of_num-le n d q (
      le_of_mul-le-mul_right {m = n} {n = q * suc d} {k = suc e} (omega (arith, scaled, swapped))
        (omega arith))

pub fractions-IsIeee : IsIeee fractions
fractions-IsIeee = record {
  le-of_int = λ a b _ _. le-of_int a b;
  ratio-lt-one = λ a b h _ _. ratio-lt-one a b h;
  ceil-ratio = λ a b h _ _. ceil-ratio a b h;
  div_mono = λ a b z h _. div_mono a b (den z) (suc (1 * z.num - 1)) h;
  ceil_mono = λ x y h _. ceil_mono x.num x.den_pred y.num y.den_pred (leb→le _ _ h);
}
