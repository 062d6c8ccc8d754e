-- ===== src/Doubles.antt =====
-- The arithmetic of static/app.js where it divides and multiplies what need not be whole: the doubles of
-- IEEE 754 from 0 up to 2 ^ 53, each as a whole number over a power of 2. A quotient is rounded to the
-- nearest double, and to the even one of two.
pub mod Laws
use domain_ssl_checker.Base.{ℕ, ◌+◌, ◌*◌, ◌/◌, ◌%◌, ◌==◌, ltb, leb, if◌then◌else◌, zero, suc}

pub record Double : Type 0 where
  pub num : ℕ
  pub den : ℕ

-- The whole number next to `a / b`
unfoldable pub round_even : ℕ → ℕ → ℕ
round_even a b =
    let q = a / b in
    if ltb (2 * (a % b)) b
    then q
    else if ltb b (2 * (a % b))
    then q + 1
    else if q % 2 == 0
    then q
    else q + 1

-- 2 ^ 52: a double has 53 digits.
abbrev pub least_digits : ℕ
least_digits = 4503599627370496

-- The first of `d`, `2 * d`, ... with which `a / b` has 53 digits before its point. For `a` from 1 and `b` up
-- to 2 ^ 53, and for a double up to 2 ^ 53 times a whole number, 110 steps from 1 are enough.
unfoldable pub scale_from : ℕ → ℕ → ℕ → ℕ → ℕ
scale_from zero a b d = d
scale_from (suc f) a b d =
    let rest = scale_from f a b (2 * d) in if leb (least_digits * b) (a * d) then d else rest

-- `a / b`
unfoldable pub quotient : ℕ → ℕ → Double
quotient a b =
    let d = scale_from 110 a b 1 in
    if a == 0 then record { num = 0; den = 1 } else record { num = round_even (a * d) b; den = d }

-- `x * c`, for a whole number `c`
unfoldable pub times : ℕ → Double → Double
times c x = quotient (c * x.num) x.den

-- `Math.round(x)`
unfoldable pub math_round : Double → ℕ
math_round x = (2 * x.num + x.den) / (2 * x.den)
