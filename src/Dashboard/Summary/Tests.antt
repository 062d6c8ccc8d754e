-- ===== src/Dashboard/Summary/Tests.antt =====
-- The theorem on the numbers of the dashboard, at two lists and no web app.
use domain_ssl_checker.Dashboard.Summary.{
  Summary, Health, percent, render_dashboard_summary, changes, certificates,
}
use domain_ssl_checker.Dashboard.Summary.Laws.{
  render_dashboard_summary_lem, total_of, IsPositive, IsChange, mentions, health_in,
}
use domain_ssl_checker.Doubles.{math_round, times, quotient, round_even, scale_from}
use domain_ssl_checker.Base.{refl, none, some, ◌≤◌, ◌≡◌, All, not, ◌==◌, [], arith}

abbrev two_lists : Summary
two_lists = record {
  full_stats = record {
    healthy = 5;
    caution = 1;
    warning = 0;
    critical = 0;
    expired = 1;
    error = 1;
    pending = 0;
  };
  ssl_stats = record {
    healthy = 2;
    watch = 0;
    caution = 0;
    warning = 1;
    expired = 0;
    error = 0;
    pending = 0;
  };
  full_count = 8;
  ssl_count = 3;
  webapp_stats = none;
  webapp_avg_response_time = none;
  trend_length = 0;
  check_seconds = some 110;
}

abbrev old_health : Health
old_health = record { domain = 63; ssl = 100; webapp = 0 }

render_dashboard_summary_example :
    let (prev, shown) = render_dashboard_summary (some old_health) two_lists in
    let diffs = changes old_health shown.health in
    (shown.health.domain ≤ 100)
    × (shown.health.ssl ≤ 100)
    × (shown.health.webapp ≤ 100)
    × (total_of shown.breakdown ≡ shown.issue_count)
    × All IsPositive shown.breakdown
    × (shown.changed ≡ some diffs)
    × (mentions certificates diffs ≡ not (100 == health_in certificates shown.health))
    × All (IsChange old_health shown.health) diffs
    × ((render_dashboard_summary prev two_lists).1.changed ≡ some [])
render_dashboard_summary_example =
    render_dashboard_summary_lem old_health two_lists certificates (omega arith) (omega arith)
      (omega arith)

-- A share of 57.5 percent, whose double is below it
percent_23_of_40 : percent 23 40 ≡ 57
unfolding percent math_round times quotient round_even scale_from
percent_23_of_40 = refl
