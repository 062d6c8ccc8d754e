-- ===== src/Webapps/Axis/Laws.antt =====
-- The bounds of the numbers of the chart.
use domain_ssl_checker.Doubles.Laws.{rounded-le, rounded-whole}
use domain_ssl_checker.Webapps.Axis.{
  least, greatest, last_of, mean, stats_of_times, magnitude, nice_max, tick, label_index,
  label_count, ChartStats, Height,
}
use native.Mathlib.Nat.{le-div_iff_mul-le, div-lt_iff_lt-mul}
use mathlib.Core.Path.{subst}
use mathlib.Core.Option.{some-injective}
use domain_ssl_checker.Webapps.Stats.{sum}
use domain_ssl_checker.Base.{
  ℕ, ◌∙◌, List, ◌<◌, ◌≤◌, All, arith, length, ◌∷◌, ◌*◌, min, max, [], suc, ◌/◌, zero, ◌+◌, ◌≡◌,
  some, ◌-◌,
}

-- The least and greatest of a list bound it.
least_lem : (n : ℕ) (ns : List ℕ) → (least n ns ≤ n) × All (λ x. least n ns ≤ x) ns
least_lem n [] = (omega arith, tt)
least_lem n (m ∷ ms) =
    let (below, all_below) = least_lem (min n m) ms in (omega arith, (omega arith, all_below))

greatest_lem : (n : ℕ) (ns : List ℕ) → (n ≤ greatest n ns) × All (λ x. x ≤ greatest n ns) ns
greatest_lem n [] = (omega arith, tt)
greatest_lem n (m ∷ ms) =
    let (above, all_above) = greatest_lem (max n m) ms in (omega arith, (omega arith, all_above))

sum_bounds :
    (lo hi : ℕ) (ns : List ℕ)
    → All (λ x. lo ≤ x) ns
    → All (λ x. x ≤ hi) ns
    → (length ns * lo ≤ sum ns) × (sum ns ≤ length ns * hi)
sum_bounds lo hi [] a b = (omega arith, omega arith)
sum_bounds lo hi (n ∷ ns) a b =
    let (below, above) = sum_bounds lo hi ns a.1 b.1 in (grind arith, grind arith)

last_of_bounds :
    (lo hi n : ℕ) (ns : List ℕ)
    → lo ≤ n
    → n ≤ hi
    → All (λ x. lo ≤ x) ns
    → All (λ x. x ≤ hi) ns
    → (lo ≤ last_of n ns) × (last_of n ns ≤ hi)
last_of_bounds lo hi n [] p q a b = (p, q)
last_of_bounds lo hi n (m ∷ ms) p q a b = last_of_bounds lo hi m ms a.0 b.0 a.1 b.1

mean-ge : (len total lo : ℕ) → 0 < len → len * lo ≤ total → lo ≤ (2 * total + len) / (2 * len)
mean-ge len total lo p h = (le-div_iff_mul-le {k = 2 * len} (omega arith)).1 (grind arith)

mean-le : (len total hi : ℕ) → 0 < len → total ≤ len * hi → (2 * total + len) / (2 * len) ≤ hi
mean-le len total hi p h =
    let below : (2 * total + len) / (2 * len) < suc hi =
      (div-lt_iff_lt-mul {k = 2 * len} {y = suc hi} (omega arith)).1 (grind arith) in
    omega arith

mean_bounds :
    (lo hi n : ℕ) (ns : List ℕ)
    → All (λ x. lo ≤ x) (n ∷ ns)
    → All (λ x. x ≤ hi) (n ∷ ns)
    → (lo ≤ mean n ns) × (mean n ns ≤ hi)
mean_bounds lo hi n ns a b =
    let (below, above) = sum_bounds lo hi (n ∷ ns) a b in
    (
      mean-ge (length (n ∷ ns)) (sum (n ∷ ns)) lo (omega arith) below,
      mean-le (length (n ∷ ns)) (sum (n ∷ ns)) hi (omega arith) above,
    )

both_bounds :
    (lo hi : ℕ) (xs : List ℕ)
    → All (λ x. lo ≤ x) xs
    → All (λ x. x ≤ hi) xs
    → All (λ x. (lo ≤ x) × (x ≤ hi)) xs
both_bounds lo hi [] a b = tt
both_bounds lo hi (x ∷ xs) a b = ((a.0, b.0), both_bounds lo hi xs a.1 b.1)

-- With two response times or more, the average and the last lie between the least and the greatest,
-- as do all of the times.
pub stats_of_times_lem :
    (ts : List ℕ) (s : ChartStats)
    → stats_of_times ts ≡ some s
    → All (λ t. (s.least ≤ t) × (t ≤ s.greatest)) (s.average ∷ s.last ∷ ts)
unfolding stats_of_times
stats_of_times_lem [] s h = absurd cc
stats_of_times_lem (n ∷ []) s h = absurd cc
stats_of_times_lem (n ∷ m ∷ ms) s h =
    let lo = least n (m ∷ ms) in
    let hi = greatest n (m ∷ ms) in
    let below = least_lem n (m ∷ ms) in
    let above = greatest_lem n (m ∷ ms) in
    let between = λ (t : ChartStats).
      All (λ x. (t.least ≤ x) × (x ≤ t.greatest)) (t.average ∷ t.last ∷ n ∷ m ∷ ms) in
    subst between (some-injective _ _ h) (
      mean_bounds lo hi n (m ∷ ms) below above,
      (
        last_of_bounds lo hi n (m ∷ ms) below.0 above.0 below.1 above.1,
        both_bounds lo hi (n ∷ m ∷ ms) below above,
      ),
    )

magnitude_lem : (f n : ℕ) → n ≤ f → 0 < n → (magnitude f n ≤ n) × (n < 10 * magnitude f n)
unfolding magnitude
magnitude_lem zero n h p = absurd (omega arith)
magnitude_lem (suc f) n h p = ground (arith, magnitude_lem f (n / 10))

-- The top of the axis is at least the number, and at most two and a half times it.
pub nice_max_lem : (n : ℕ) → 0 < n → (n ≤ nice_max n) × (2 * nice_max n ≤ 5 * n)
unfolding nice_max
nice_max_lem n p = ground (arith, magnitude_lem n n)

tick_mono : (n i : ℕ) → tick n i ≤ tick n (suc i)
unfolding tick
tick_mono n i = grind arith

label_index_first : (labels points : ℕ) → 2 ≤ labels → label_index labels points 0 ≡ 0
unfolding label_index
label_index_first labels points h =
    rounded-whole 0 (points - 1) 0 (labels - 1) (omega arith) (omega arith) ∙ grind arith

label_index_last :
    (labels points : ℕ) → 2 ≤ labels → label_index labels points (labels - 1) ≡ points - 1
unfolding label_index
label_index_last labels points h =
    rounded-whole 1 (points - 1) (labels - 1) (labels - 1) (omega arith) (omega arith) ∙ omega arith

label_index-le :
    (labels points i : ℕ) → 2 ≤ labels → i < labels → label_index labels points i ≤ points - 1
unfolding label_index
label_index-le labels points i h lt =
    let below = rounded-le 1 (points - 1) i (labels - 1) (omega arith) (omega arith) in omega arith

-- On a chart of two points or more, the labels of the axis of times name points of the chart, the first
-- label the first point and the last one the last.
pub label_index_lem :
    (w points j : ℕ)
    → 2 ≤ points
    → j < label_count w points
    → let index = label_index (label_count w points) points in
      (index 0 ≡ 0) × (index (label_count w points - 1) ≡ points - 1) × (index j < points)
unfolding label_count
label_index_lem w points j h lt =
    let n = min (max 2 (w / 120)) points in
    let enough : 2 ≤ n = ground arith in
    let below = label_index-le n points j enough lt in
    (label_index_first n points enough, label_index_last n points enough, omega arith)

-- Two quotients that are equal.
abbrev pub SameHeight : Height → Height → Type 0
SameHeight a b = a.num * b.den ≡ b.num * a.den
