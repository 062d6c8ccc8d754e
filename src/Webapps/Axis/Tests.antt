-- ===== src/Webapps/Axis/Tests.antt =====
-- The theorems on the chart's numbers, at a few response times.
use domain_ssl_checker.Webapps.Axis.{nice_max, label_index, label_count, magnitude}
use domain_ssl_checker.Webapps.Axis.Laws.{label_index_lem}
use domain_ssl_checker.Doubles.{math_round, times, quotient, round_even, scale_from}
use domain_ssl_checker.Base.{◌≡◌, arith, refl, ◌-◌, ◌<◌}

nice_max_340 : nice_max 340 ≡ 500
unfolding nice_max magnitude
nice_max_340 = refl

label_index_example :
    let index = label_index (label_count 452 5) 5 in
    (index 0 ≡ 0) × (index (label_count 452 5 - 1) ≡ 4) × (index 2 < 5)
unfolding label_count
label_index_example = label_index_lem 452 5 2 (omega arith) (omega arith)

-- The label at 31.5, whose double is below it
label_index_7_of_11 : label_index 11 46 7 ≡ 31
unfolding label_index math_round times quotient round_even scale_from
label_index_7_of_11 = refl
