-- ===== src/Webapps/Chart/Laws.antt =====
-- What the chart shows after an answer, in time or too late.
use domain_ssl_checker.Webapps.Chart.{
  ChartKey, ChartState, receive_chart, choose_hours, open_chart, load_webapp_chart, draw,
  cached_times, same_key, line,
}
use domain_ssl_checker.Webapps.Axis.{ChartStats, stats_of_times}
use domain_ssl_checker.Base.{ℕ, ◌≡◌, true, List, arith, some, ◌==◌, none, false, ◌||◌, ◌∷◌}

-- The key of what is chosen.
abbrev pub key_of : ℕ → ℕ → ChartKey
key_of id h = record { webapp = id; hours = h }

same_key_self : (k : ChartKey) → same_key k k ≡ true
same_key_self k = ground arith

-- Where the details of a web app are open, and two durations, the first not the chosen one, are not
-- loaded yet: choosing the first, its answer, choosing the second, its answer, and choosing the first
-- again shows the times and the numbers of the first, with no further request.
pub choose_again_lem :
    (id h k : ℕ) (ts us : List ℕ) (st : ChartStats) (s : ChartState)
    → s.webapp ≡ some id
    → cached_times (key_of id h) s.cached ≡ none
    → cached_times (key_of id k) s.cached ≡ none
    → (h == k) ≡ false
    → (h == 0 || s.hours == h) ≡ false
    → (k == 0) ≡ false
    → stats_of_times ts ≡ some st
    → let first = receive_chart (key_of id h) (some ts) (choose_hours h s) in
      let second = receive_chart (key_of id k) (some us) (choose_hours k first) in
      let again = choose_hours h second in
      (again.chart ≡ line ts) × (again.stats ≡ some st) × (again.waiting ≡ s.waiting)
unfolding receive_chart choose_hours load_webapp_chart draw
choose_again_lem id h k ts us st s w a b apart new pos_k enough =
    ground (arith, same_key_self (key_of id h), same_key_self (key_of id k))

-- The details of a web app are opened, and then those of another one, before the answer to the first
-- request. Both requests wait; if the answer to the first comes last, with two times or more, its line
-- and its numbers are shown under the other web app.
pub late_answer_shows :
    (id other : ℕ) (ts us : List ℕ) (st : ChartStats) (s : ChartState)
    → stats_of_times us ≡ some st
    → let opened = open_chart other (open_chart id s) in
      let late =
        receive_chart
          (key_of id s.hours)
          (some us)
          (receive_chart (key_of other s.hours) (some ts) opened) in
      (opened.waiting ≡ key_of other s.hours ∷ key_of id s.hours ∷ s.waiting)
      × (late.webapp ≡ some other)
      × (late.waiting ≡ s.waiting)
      × (late.chart ≡ line us)
      × (late.stats ≡ some st)
unfolding receive_chart open_chart load_webapp_chart draw
late_answer_shows id other ts us st s enough =
    ground (arith, same_key_self (key_of id s.hours), same_key_self (key_of other s.hours))
