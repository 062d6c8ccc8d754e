-- ===== src/Dashboard/Summary.antt =====
-- The numbers of the dashboard: `renderDashboardSummary`, without the parts that it hands on. The counts
-- are those of the server's summary.
pub mod Laws
mod Tests
use domain_ssl_checker.Doubles.{quotient, times, math_round}
use domain_ssl_checker.Base.{
  ℕ, none, List, if◌then◌else◌, Bool, Option, some, ltb, ℤ, ◌∷◌, ◌==◌, ◌+◌, leb, false, ◌*◌, [],
  ◌++◌, true, ◌||◌, ◌/◌, sub_ℕ, ◌%◌,
}

pub record FullStats : Type 0 where
  pub healthy : ℕ
  pub caution : ℕ
  pub warning : ℕ
  pub critical : ℕ
  pub expired : ℕ
  pub error : ℕ
  pub pending : ℕ

pub record SslStats : Type 0 where
  pub healthy : ℕ
  pub watch : ℕ
  pub caution : ℕ
  pub warning : ℕ
  pub expired : ℕ
  pub error : ℕ
  pub pending : ℕ

pub record WebStats : Type 0 where
  pub up : ℕ
  pub down : ℕ
  pub slow : ℕ
  pub unknown : ℕ
  pub total : ℕ
  pub paused : ℕ

abbrev pub no_webapps : WebStats
no_webapps = record { up = 0; down = 0; slow = 0; unknown = 0; total = 0; paused = 0 }

pub record Summary : Type 0 where
  pub full_stats : FullStats
  pub ssl_stats : SslStats
  pub full_count : ℕ
  pub ssl_count : ℕ
  pub webapp_stats : Option WebStats
  pub webapp_avg_response_time : Option ℕ
  -- The length of `webapp_trend`, 0 where it is missing.
  pub trend_length : ℕ
  -- `last_check.duration_seconds`
  pub check_seconds : Option ℕ

-- `webapp_stats || {…}`
abbrev pub web_of : Summary → WebStats
web_of s = elim s.webapp_stats [ none ↦ no_webapps | some w ↦ w ]

-- `Math.round((part / all) * 100)`, in doubles, and 0 of none
unfoldable pub percent : ℕ → ℕ → ℕ
percent part count = if ltb 0 count then math_round (times 100 (quotient part count)) else 0

-- `_prevHealth`
pub record Health : Type 0 where
  pub domain : ℕ
  pub ssl : ℕ
  pub webapp : ℕ

unfoldable pub health_of : Summary → Health
health_of s = record {
  domain = percent s.full_stats.healthy s.full_count;
  ssl = percent s.ssl_stats.healthy s.ssl_count;
  webapp = percent (web_of s).up (web_of s).total;
}

pub data Area : Type 0 where
  domains certificates webapps : Area

-- "Since last check": what changed, with its difference.
abbrev pub change : Area → ℕ → ℕ → List (Area × ℤ)
change a before now = if before == now then [] else (a, sub_ℕ now before) ∷ []

abbrev pub changes : Health → Health → List (Area × ℤ)
changes before now =
    change domains before.domain now.domain
    ++ (change certificates before.ssl now.ssl ++ change webapps before.webapp now.webapp)

-- The colour of the border of the tile of the web apps.
pub data Worst : Type 0 where
  danger warning healthy no_class : Worst

abbrev pub worst_of : WebStats → Worst
worst_of w =
    if ltb 0 w.down
    then danger
    else if ltb 0 w.slow
    then warning
    else if ltb 0 w.total
    then healthy
    else no_class

-- The numbers of the tiles, in their order.
abbrev pub full_tiles : Summary → List ℕ
full_tiles s =
    s.full_count
    ∷ s.full_stats.healthy
    ∷ (s.full_stats.caution + s.full_stats.warning + s.full_stats.critical)
    ∷ s.full_stats.expired
    ∷ s.full_stats.error
    ∷ s.full_stats.pending
    ∷ []

abbrev pub ssl_tiles : Summary → List ℕ
ssl_tiles s =
    s.ssl_count
    ∷ s.ssl_stats.healthy
    ∷ (s.ssl_stats.watch + s.ssl_stats.caution + s.ssl_stats.warning)
    ∷ s.ssl_stats.expired
    ∷ s.ssl_stats.error
    ∷ s.ssl_stats.pending
    ∷ []

abbrev pub issue : Area → ℕ → List (Area × ℕ)
issue a n = if n == 0 then [] else (a, n) ∷ []

-- `D:n | SSL:n | WA:n`, without those that are 0
abbrev pub breakdown : Summary → List (Area × ℕ)
breakdown s =
    issue domains (s.full_stats.expired + s.full_stats.error)
    ++ (issue certificates (s.ssl_stats.expired + s.ssl_stats.error)
        ++ issue webapps ((web_of s).down + (web_of s).slow))

-- `durStr`: the minutes, where there are any, and the seconds
unfoldable pub check_duration : ℕ → Option ℕ × ℕ
check_duration d = if leb 60 d then (some ((2 * d + 60) / 120), d % 60) else (none, d)

pub record DashShown : Type 0 where
  pub health : Health
  -- The grid, the buckets and the search box, in place of the hint that there is no data.
  pub has_data : Bool
  -- `none` leaves the line as it was, `some []` hides it.
  pub changed : Option (List (Area × ℤ))
  pub full_tiles : List ℕ
  pub ssl_tiles : List ℕ
  pub web_tiles : List ℕ
  pub average_visible : Bool
  pub trend_visible : Bool
  pub worst : Worst
  pub issue_count : ℕ
  pub breakdown : List (Area × ℕ)
  pub duration : Option (Option ℕ × ℕ)

abbrev pub is_some {ℓ} : {A : Type ℓ} → Option A → Bool
is_some none = false
is_some (some a) = true

abbrev pub changed_line : Option Health → Health → Option (List (Area × ℤ))
changed_line none now = none
changed_line (some before) now = some (changes before now)

abbrev pub shown_duration : Option ℕ → Option (Option ℕ × ℕ)
shown_duration none = none
shown_duration (some d) = some (check_duration d)

-- The new `_prevHealth`, and what is shown.
unfoldable pub render_dashboard_summary : Option Health → Summary → Option Health × DashShown
render_dashboard_summary prev s =
    let h = health_of s in
    let w = web_of s in
    (
      some h,
      record {
        health = h;
        has_data = ltb 0 s.full_count || ltb 0 s.ssl_count || ltb 0 w.total;
        changed = changed_line prev h;
        full_tiles = full_tiles s;
        ssl_tiles = ssl_tiles s;
        web_tiles = w.total ∷ w.up ∷ w.down ∷ w.slow ∷ w.unknown ∷ w.paused ∷ [];
        average_visible = is_some s.webapp_avg_response_time;
        trend_visible = ltb 1 s.trend_length;
        worst = worst_of w;
        issue_count =
            s.full_stats.expired
            + s.full_stats.error
            + (s.ssl_stats.expired + s.ssl_stats.error)
            + (w.down + w.slow);
        breakdown = breakdown s;
        duration = shown_duration s.check_seconds;
      },
    )
