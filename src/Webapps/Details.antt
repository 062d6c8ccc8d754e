-- ===== src/Webapps/Details.antt =====
-- The details of a web app: the texts and classes that `openWebAppDetail` writes, before and after the
-- answer of the server. The chart and the sparkline stand in Chart.
pub mod Laws
use domain_ssl_checker.Durations.{format_duration_long}
use domain_ssl_checker.Base.{
  Text, ℕ, Option, if◌then◌else◌, Bool, List, leb, text_eq, some, text_or, ◌||◌, map, ◌*◌, codes,
  ◌==◌, none, [], not, reverse, ◌+◌, ◌∷◌, ◌/◌,
}

-- What is read of the row of the web app; its `is_active` is 0 or false.
pub record DetailRow : Type 0 where
  pub name : Text
  pub url : Text
  pub status : Option Text
  pub is_paused : Bool
  pub check_interval : Option ℕ
  pub last_status_code : Option ℕ
  pub expected_body : Option Text
  pub expected_body_negate : Bool

pub data BadgeClass : Type 0 where
  status_up status_slow status_down : BadgeClass

-- "h", "m" and "s"
pub data IntervalUnit : Type 0 where
  hours minutes seconds : IntervalUnit

pub record DetailHead : Type 0 where
  pub title : Text
  pub status : Text
  pub paused_mark : Bool
  pub badge : BadgeClass
  pub interval : ℕ × IntervalUnit
  -- `none` is the dash.
  pub code : Option ℕ
  -- "NOT " or "CONTAINS ", where a text is expected
  pub body_match : Option (Bool × Text)

-- `Math.round(interval / 3600) + 'h'` and so on
unfoldable pub interval_text : ℕ → ℕ × IntervalUnit
interval_text n =
    if leb 3600 n
    then ((2 * n + 3600) / 7200, hours)
    else if leb 60 n
    then ((2 * n + 60) / 120, minutes)
    else (n, seconds)

-- `status === 'up' || status === 'slow'`
abbrev pub is_up : Text → Bool
is_up s = text_eq s (codes "up") || text_eq s (codes "slow")

abbrev pub badge_of : Text → BadgeClass
badge_of s =
    if is_up s then status_up else if text_eq s (codes "slow") then status_slow else status_down

-- `n || null`, where 0 is falsy
abbrev pub nonzero : Option ℕ → Option ℕ
nonzero none = none
nonzero (some n) = if n == 0 then none else some n

abbrev pub interval_or_default : Option ℕ → ℕ
interval_or_default none = 300
interval_or_default (some n) = if n == 0 then 300 else n

abbrev pub body_match_of : Option Text → Bool → Option (Bool × Text)
body_match_of none negate = none
body_match_of (some []) negate = none
body_match_of (some (c ∷ cs)) negate = some (negate, c ∷ cs)

-- `wa.status || 'unknown'`
abbrev pub shown_status : DetailRow → Text
shown_status a = text_or a.status (codes "unknown")

unfoldable pub detail_head : DetailRow → DetailHead
detail_head a = record {
  title = if text_eq a.name [] then a.url else a.name;
  status = shown_status a;
  paused_mark = a.is_paused;
  badge = badge_of (shown_status a);
  interval = interval_text (interval_or_default a.check_interval);
  code = nonzero a.last_status_code;
  body_match = body_match_of a.expected_body a.expected_body_negate;
}

-- The answer: the seconds that the status has lasted.
pub data DurationText : Type 0 where
  dash blank : DurationText
  up_for down_for : Text → DurationText

abbrev pub has_lasted : (Text → DurationText) → Option ℕ → DurationText
has_lasted label none = blank
has_lasted label (some s) = label (format_duration_long (some s))

unfoldable pub current_duration : DetailRow → Option ℕ → DurationText
current_duration a lasted =
    let s = shown_status a in
    if a.is_paused || not (is_up s || text_eq s (codes "down"))
    then dash
    else if is_up s
    then has_lasted up_for lasted
    else has_lasted down_for lasted

-- The bar of the uptime of a period, in hundredths of a percent; `none` is null.
pub data BarClass : Type 0 where
  good ok bad no_class : BarClass

pub record UptimeBar : Type 0 where
  pub percent : Option ℕ
  pub width : ℕ
  pub class : BarClass
  pub incidents : ℕ
  pub downtime : ℕ

abbrev pub uptime_class : Option ℕ → BarClass
uptime_class none = no_class
uptime_class (some p) = if leb 9900 p then good else if leb 9500 p then ok else bad

abbrev pub or_zero : Option ℕ → ℕ
or_zero none = 0
or_zero (some n) = n

-- `renderUptimeBar`
unfoldable pub uptime_bar : Option ℕ → Option ℕ → Option ℕ → UptimeBar
uptime_bar pct incidents downtime = record {
  percent = pct;
  width = or_zero pct;
  class = uptime_class pct;
  incidents = or_zero incidents;
  downtime = or_zero downtime;
}

-- An incident, by the status that it led to: the icon and the class say that the web app came back.
pub record Incident : Type 0 where
  pub before : Text
  pub after : Text
  pub at : Text

pub record IncidentRow : Type 0 where
  pub came_back : Bool
  pub incident : Incident

-- The incidents, the last one first.
unfoldable pub incident_rows : List Incident → List IncidentRow
incident_rows is = map (λ i. record { came_back = is_up i.after; incident = i }) (reverse is)
