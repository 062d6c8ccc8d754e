-- ===== src/Base/Int.antt =====
-- Signed integers, for the days that are left.
use Prim.Native.Nat.{◌-◌, ◌*◌, ◌/◌, min, max, compare, Ordering, ℕ, suc, ◌+◌, ◌≤◌}
use mathlib.Core.Path.{◌≡◌}
use native.Mathlib.Omega.{arith}
use mathlib.Core.Bool.{Bool, true}
use domain_ssl_checker.Base.Tests.{ltb, leb, if◌then◌else◌}

-- `negsuc n` is -(n + 1).
pub data ℤ : Type 0 where
  pos : ℕ → ℤ
  negsuc : ℕ → ℤ

-- `d < k`
abbrev pub lt_nat : ℤ → ℕ → Bool
lt_nat (pos n) k = ltb n k
lt_nat (negsuc n) k = true

abbrev pub pos_part : ℤ → ℕ
pos_part (pos n) = n
pos_part (negsuc n) = 0

abbrev pub neg_part : ℤ → ℕ
neg_part (pos n) = 0
neg_part (negsuc n) = suc n

infix 50 ◌≤ℤ◌
abbrev pub ◌≤ℤ◌ : ℤ → ℤ → Type 0
a ≤ℤ b = pos_part a + neg_part b ≤ pos_part b + neg_part a

-- `Math.round(x / d)` for d > 0: halves go up.
abbrev pub round_div : ℤ → ℕ → ℤ
round_div (pos n) d = pos ((2 * n + d) / (2 * d))
round_div (negsuc n) d =
    if leb (2 * suc n) d
    then pos ((d - 2 * suc n) / (2 * d))
    else negsuc ((2 * suc n - d - 1) / (2 * d))

-- a - b
abbrev pub sub_ℕ : ℕ → ℕ → ℤ
sub_ℕ a b = if leb b a then pos (a - b) else negsuc (b - a - 1)

abbrev pub compare_ℤ : ℤ → ℤ → Ordering
compare_ℤ a b = compare (pos_part a + neg_part b) (pos_part b + neg_part a)

-- `Math.min(a, b)`
abbrev pub min_ℤ : ℤ → ℤ → ℤ
min_ℤ (pos a) (pos b) = pos (min a b)
min_ℤ (pos a) (negsuc b) = negsuc b
min_ℤ (negsuc a) (pos b) = negsuc a
min_ℤ (negsuc a) (negsuc b) = negsuc (max a b)

infixl 65 ◌+ℤ◌ ◌-ℤ◌
unfoldable pub ◌+ℤ◌ : ℤ → ℤ → ℤ
a +ℤ b = sub_ℕ (pos_part a + pos_part b) (neg_part a + neg_part b)

unfoldable pub ◌-ℤ◌ : ℤ → ℤ → ℤ
a -ℤ b = sub_ℕ (pos_part a + neg_part b) (neg_part a + pos_part b)

-- `a < b`
abbrev pub lt_ℤ : ℤ → ℤ → Bool
lt_ℤ a b = ltb (pos_part a + neg_part b) (pos_part b + neg_part a)

-- `Math.max(a, b)`
abbrev pub max_ℤ : ℤ → ℤ → ℤ
max_ℤ a b = if lt_ℤ a b then b else a

pub +ℤ_parts :
    (a b : ℤ)
    → pos_part (a +ℤ b) + neg_part a + neg_part b ≡ neg_part (a +ℤ b) + pos_part a + pos_part b
unfolding ◌+ℤ◌
+ℤ_parts a b = ground arith

pub -ℤ_parts :
    (a b : ℤ)
    → pos_part (a -ℤ b) + neg_part a + pos_part b ≡ neg_part (a -ℤ b) + pos_part a + neg_part b
unfolding ◌-ℤ◌
-ℤ_parts a b = ground arith
