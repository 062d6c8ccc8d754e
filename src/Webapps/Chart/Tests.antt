-- ===== src/Webapps/Chart/Tests.antt =====
-- The theorem on the late answer, at two web apps.
use domain_ssl_checker.Webapps.Chart.{ChartState, open_chart, receive_chart, loading, line}
use domain_ssl_checker.Webapps.Axis.{ChartStats, stats_of_times}
use domain_ssl_checker.Base.{none, some, [], ◌∷◌, ◌≡◌, refl}
use domain_ssl_checker.Webapps.Chart.Laws.{key_of, late_answer_shows}

abbrev no_details : ChartState
no_details = record {
  webapp = none;
  hours = 24;
  cached = [];
  waiting = [];
  chart = loading;
  stats = none;
}

abbrev slow_times : ChartStats
slow_times = record { average = 150; least = 100; greatest = 200; last = 200 }

late_answer_example :
    let opened = open_chart 2 (open_chart 1 no_details) in
    let late =
      receive_chart
        (key_of 1 24)
        (some (100 ∷ 200 ∷ []))
        (receive_chart (key_of 2 24) (some (7 ∷ [])) opened) in
    (opened.waiting ≡ key_of 2 24 ∷ key_of 1 24 ∷ [])
    × (late.webapp ≡ some 2)
    × (late.waiting ≡ [])
    × (late.chart ≡ line (100 ∷ 200 ∷ []))
    × (late.stats ≡ some slow_times)
unfolding stats_of_times
late_answer_example = late_answer_shows 1 2 (7 ∷ []) (100 ∷ 200 ∷ []) slow_times no_details refl
