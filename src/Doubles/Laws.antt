-- ===== src/Doubles/Laws.antt =====
-- Bounds and whole values of the arithmetic on doubles.
use Prim.Native.Nat.{◌^◌}
use Prim.Native.Nat.pow
use mathlib.Core.Path.{subst}
use native.Mathlib.Nat.{
  div-lt_iff_lt-mul, div-eq_of_lt-le, mod-add-div', mul-mod_left, mul-div_left,
}
use domain_ssl_checker.Doubles.{
  Double, round_even, scale_from, quotient, times, math_round, least_digits,
}
use domain_ssl_checker.Base.{
  ℕ, ◌+◌, ◌*◌, ◌/◌, ◌%◌, ◌≤◌, ◌<◌, ◌≡◌, ◌==◌, leb, zero, suc, arith, refl, ap, ◌∙◌, Bool-cases, sym,
  ==_iff, inl, inr,
}

-- From one whole number below up to one above.
round_even-le : (n a b : ℕ) → 0 < b → a ≤ n * b → round_even a b ≤ n
unfolding round_even
round_even-le n a b p h =
    let split : a % b + a / b * b ≡ a = mod-add-div' a b in
    let below : a / b < suc n = (div-lt_iff_lt-mul {k = b} {y = suc n} p).1 (grind arith) in
    elim (Bool-cases (a / b == n)) [
      | inl full ↦
          let at : a / b ≡ n = ground arith in
          let whole : a / b * b ≡ n * b = ap (λ q. q * b) at in
          let none_left : a % b ≡ 0 = omega arith in rw none_left (ground arith)
      | inr less ↦ ground arith
    ]

round_even-whole : (n b : ℕ) → 0 < b → round_even (n * b) b ≡ n
unfolding round_even
round_even-whole n b p = rw (mul-mod_left n b, mul-div_left n p) (ground arith)

scale_from-pos : (f a b d : ℕ) → 0 < d → 0 < scale_from f a b d
unfolding scale_from
scale_from-pos zero a b d p = p
scale_from-pos (suc f) a b d p = ground (arith, scale_from-pos f a b (2 * d) (omega arith))

-- With enough steps, the quotient has 53 digits.
pub scale_from-enough :
    (f a b d : ℕ) → least_digits * b ≤ a * (d * 2 ^ f) → least_digits * b ≤ a * scale_from f a b d
unfolding scale_from
scale_from-enough zero a b d h = grind arith
scale_from-enough (suc f) a b d h = elim (Bool-cases (leb (least_digits * b) (a * d))) [
  | inl done ↦ rw done (ground arith)
  | inr more ↦
      let double : d * 2 ^ suc f ≡ 2 * d * 2 ^ f = ap (d *◌) (pow.suc 2 f) ∙ grind arith in
      rw more (scale_from-enough f a b (2 * d) (subst (λ x. least_digits * b ≤ a * x) double h))
]

math_round-le : (n : ℕ) (x : Double) → 0 < x.den → x.num ≤ n * x.den → math_round x ≤ n
unfolding math_round
math_round-le n x p h =
    let below : (2 * x.num + x.den) / (2 * x.den) < suc n =
      (div-lt_iff_lt-mul {k = 2 * x.den} {y = suc n} (omega arith)).1 (grind arith) in
    omega arith

math_round-whole : (n : ℕ) (x : Double) → 0 < x.den → x.num ≡ n * x.den → math_round x ≡ n
unfolding math_round
math_round-whole n x p h = div-eq_of_lt-le (2 * x.den) (grind arith) (grind arith)

scaled : (n a b d : ℕ) → a ≤ n * b → a * d ≤ n * d * b
scaled n a b zero h = grind arith
scaled n a b (suc d) h = let rest = scaled n a b d h in grind arith

scaled_whole : (n a b d : ℕ) → a ≡ n * b → a * d ≡ n * d * b
scaled_whole n a b d h = ap (λ x. x * d) h ∙ grind arith

scaled_left : (c n x d : ℕ) → x ≤ n * d → c * x ≤ c * n * d
scaled_left zero n x d h = grind arith
scaled_left (suc c) n x d h = let rest = scaled_left c n x d h in grind arith

none_of_zero : (n b : ℕ) → 0 < b → 0 ≡ n * b → n ≡ 0
none_of_zero zero b p h = refl
none_of_zero (suc n) b p h = absurd (grind arith)

-- A quotient is at most a whole number that bounds it, and is whole where it should be.
pub quotient-le :
    (n a b : ℕ)
    → 0 < b
    → a ≤ n * b
    → (0 < (quotient a b).den) × ((quotient a b).num ≤ n * (quotient a b).den)
unfolding quotient
quotient-le n a b p h = elim (Bool-cases (a == 0)) [
  | inl none ↦ rw none (omega arith, omega arith)
  | inr some ↦
      let d = scale_from 110 a b 1 in
      let fit : a * d ≤ n * d * b = scaled n a b d h in
      rw some (scale_from-pos 110 a b 1 (omega arith), round_even-le (n * d) (a * d) b p fit)
]

pub quotient-whole :
    (n a b : ℕ)
    → 0 < b
    → a ≡ n * b
    → (0 < (quotient a b).den) × ((quotient a b).num ≡ n * (quotient a b).den)
unfolding quotient
quotient-whole n a b p h = elim (Bool-cases (a == 0)) [
  | inl none ↦
      let zero_n : n ≡ 0 = none_of_zero n b p (sym ((==_iff a 0).0 none) ∙ h) in
      rw none (omega arith, rw zero_n refl)
  | inr some ↦
      let d = scale_from 110 a b 1 in
      let fit : a * d ≡ n * d * b = scaled_whole n a b d h in
      rw some (
        scale_from-pos 110 a b 1 (omega arith),
        ap (λ x. round_even x b) fit ∙ round_even-whole (n * d) b p,
      )
]

-- What is rounded of `a / b * c`
abbrev pub rounded : ℕ → ℕ → ℕ → ℕ
rounded c a b = math_round (times c (quotient a b))

pub rounded-le : (n c a b : ℕ) → 0 < b → a ≤ n * b → rounded c a b ≤ c * n
unfolding times
rounded-le n c a b p h =
    let (pos, fit) = quotient-le n a b p h in
    let q = quotient a b in
    let (pos2, fit2) =
      quotient-le (c * n) (c * q.num) q.den pos (scaled_left c n q.num q.den fit) in
    math_round-le (c * n) (times c q) pos2 fit2

pub rounded-whole : (n c a b : ℕ) → 0 < b → a ≡ n * b → rounded c a b ≡ c * n
unfolding times
rounded-whole n c a b p h =
    let (pos, fit) = quotient-whole n a b p h in
    let q = quotient a b in
    let (pos2, fit2) = quotient-whole (c * n) (c * q.num) q.den pos (ap (c *◌) fit ∙ grind arith) in
    math_round-whole (c * n) (times c q) pos2 fit2
