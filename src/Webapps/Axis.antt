-- ===== src/Webapps/Axis.antt =====
-- The numbers of the chart of a web app, in `loadWebappChart`: the average, least, greatest and last
-- response time, the ticks of the axes, and the height at which a point and a tick are drawn. The
-- response times are whole milliseconds.
pub mod Laws
mod Tests
use domain_ssl_checker.Doubles.{quotient, times, math_round}
use domain_ssl_checker.Webapps.Stats.{sum, rounded_mean}
use domain_ssl_checker.Base.{
  ℕ, List, ◌∷◌, ◌*◌, Option, suc, if◌then◌else◌, min, [], max, ◌+◌, none, ◌/◌, ◌==◌, ◌-◌, length,
  some, ltb, leb, zero,
}

-- `Math.min.apply(null, rts)` and `Math.max.apply(null, rts)`, of a list that starts with `n`
abbrev pub least : ℕ → List ℕ → ℕ
least n [] = n
least n (m ∷ ms) = least (min n m) ms

abbrev pub greatest : ℕ → List ℕ → ℕ
greatest n [] = n
greatest n (m ∷ ms) = greatest (max n m) ms

-- `rts[rts.length - 1]`
abbrev pub last_of : ℕ → List ℕ → ℕ
last_of n [] = n
last_of n (m ∷ ms) = last_of m ms

pub record ChartStats : Type 0 where
  pub average : ℕ
  pub least : ℕ
  pub greatest : ℕ
  pub last : ℕ

-- `Math.round(sum / rts.length)`
abbrev pub mean : ℕ → List ℕ → ℕ
mean n ns = (2 * sum (n ∷ ns) + length (n ∷ ns)) / (2 * length (n ∷ ns))

-- The four texts; fewer than two response times show none.
unfoldable pub stats_of_times : List ℕ → Option ChartStats
stats_of_times [] = none
stats_of_times (n ∷ []) = none
stats_of_times (n ∷ m ∷ ms) = some (record {
  average = mean n (m ∷ ms);
  least = least n (m ∷ ms);
  greatest = greatest n (m ∷ ms);
  last = last_of n (m ∷ ms);
})

-- `Math.pow(10, Math.floor(Math.log10(val)))`. Each round divides by 10, so `val` rounds are enough.
unfoldable pub magnitude : ℕ → ℕ → ℕ
magnitude zero n = 1
magnitude (suc f) n = let rest = 10 * magnitude f (n / 10) in if ltb n 10 then 1 else rest

-- `niceMax`; `norm <= k` is `val <= k * mag`.
unfoldable pub nice_max : ℕ → ℕ
nice_max n =
    let mag = magnitude n n in
    if n == 0
    then 100
    else if leb n mag
    then mag
    else if leb n (2 * mag)
    then 2 * mag
    else if leb n (5 * mag)
    then 5 * mag
    else 10 * mag

-- `yTicks[i]`: `Math.round(i * yMax / 4)`
unfoldable pub tick : ℕ → ℕ → ℕ
tick y_max i = (2 * (i * y_max) + 4) / 8

-- `xLabels[i]`: `Math.round(i / (labelCount - 1) * (withRt.length - 1))`, in doubles
unfoldable pub label_index : ℕ → ℕ → ℕ → ℕ
label_index labels points i = math_round (times (points - 1) (quotient i (labels - 1)))

-- `labelCount`, for a chart that is `w` wide
unfoldable pub label_count : ℕ → ℕ → ℕ
label_count w points = min (max 2 (w / 120)) points

-- `range`, with `min` and `max` after their correction
pub record Scale : Type 0 where
  pub low : ℕ
  pub high : ℕ
  pub range : ℕ

unfoldable pub scale_of : ℕ → ℕ → Scale
scale_of low high =
    if high - low == 0
    then (let high' = if high == 0 then 1 else high in
        record { low = 0; high = high'; range = high' })
    else record { low = low; high = high; range = high - low }

-- How far below the top of a chart of height `h` a line is drawn: the quotient of two numbers.
pub record Height : Type 0 where
  pub num : ℕ
  pub den : ℕ

-- `h - ((v - min) / range) * h`
unfoldable pub point_height : ℕ → Scale → ℕ → Height
point_height h s v = record { num = h * s.range - (v - s.low) * h; den = s.range }

-- `h - (yVal / yMax) * h`
unfoldable pub tick_height : ℕ → ℕ → ℕ → Height
tick_height h y_max v = record { num = h * y_max - v * h; den = y_max }
