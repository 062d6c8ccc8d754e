-- ===== src/Status.antt =====
-- `_sslStatusFromDays`, `_domainExpiryClass`, `_sslStatusLabel`, `_domainStatusLabel` and the
-- width and class of `renderExpiryBar`.
pub mod Laws
use domain_ssl_checker.Platform.{Platform}
use domain_ssl_checker.Domains.{ListType, full, ssl_only, Domain}
use domain_ssl_checker.Domains.Sort.{days_until}
use domain_ssl_checker.Base.{
  Option, String, ℕ, ℤ, if◌then◌else◌, some, str_eq, pos, lt_nat, none, min, truthy, ◌*◌, text_or,
  negsuc, [],
}

-- `none` is null.
unfoldable pub ssl_status_from_days : Option ℤ → Option String
ssl_status_from_days none = none
ssl_status_from_days (some days) =
    if lt_nat days 0
    then some "expired"
    else if lt_nat days 5
    then some "critical"
    else if lt_nat days 15
    then some "warning"
    else if lt_nat days 20
    then some "caution"
    else if lt_nat days 30
    then some "watch"
    else some "healthy"

unfoldable pub domain_expiry_class : Option ℤ → String
domain_expiry_class none = ""
domain_expiry_class (some days) =
    if lt_nat days 0
    then "expired"
    else if lt_nat days 30
    then "critical"
    else if lt_nat days 60
    then "warning"
    else if lt_nat days 90
    then "caution"
    else "healthy"

-- A label: a word, and the bound on the days that it names.
pub data Label : Type 0 where
  -- "Healthy (>30d)"
  above : String → ℕ → Label
  -- "Watch (≤30d)"
  at_most : String → ℕ → Label
  -- "Expired"
  word : String → Label
  -- A status that the table does not have, its first letter a capital and its first `_` a blank.
  capitalized : String → Label

unfoldable pub ssl_status_label : String → Label
ssl_status_label status =
    if str_eq status ""
    then word "Pending"
    else if str_eq status "healthy"
    then above "Healthy" 30
    else if str_eq status "watch"
    then at_most "Watch" 30
    else if str_eq status "caution"
    then at_most "Caution" 20
    else if str_eq status "warning"
    then at_most "Warning" 15
    else if str_eq status "critical"
    then at_most "Critical" 5
    else if str_eq status "expired"
    then word "Expired"
    else if str_eq status "error"
    then word "Error"
    else if str_eq status "pending"
    then word "Pending"
    else capitalized status

unfoldable pub domain_status_label : String → Label
domain_status_label status =
    if str_eq status ""
    then word "Pending"
    else if str_eq status "healthy"
    then above "Healthy" 90
    else if str_eq status "caution"
    then at_most "Watch" 90
    else if str_eq status "warning"
    then at_most "Warning" 60
    else if str_eq status "critical"
    then at_most "Critical" 30
    else if str_eq status "expired"
    then word "Expired"
    else if str_eq status "error"
    then word "Error"
    else if str_eq status "pending"
    then word "Pending"
    else capitalized status

-- `Math.max(0, Math.min(100, (days / maxDays) * 100))`, times `max_days`
unfoldable pub bar_width : ℕ → ℤ → ℕ
bar_width max_days (pos n) = min (100 * max_days) (100 * n)
bar_width max_days (negsuc n) = 0

pub record Bar : Type 0 where
  pub width : ℕ
  pub class : Option String

module _ (p : Platform) where
  -- The days that the bar stands for.
  unfoldable pub bar_days : ListType → Domain → Option ℤ
  bar_days ssl_only d = d.ssl_days_left
  bar_days full d = elim d.domain_days_left [
    | some n ↦ some n
    | none ↦
        if truthy d.manual_expiry_date
        then some (days_until p (text_or d.manual_expiry_date []))
        else none
  ]

  abbrev bar_of_days : ListType → Option ℤ → Option Bar
  bar_of_days type none = none
  bar_of_days ssl_only (some days) =
      some (record { width = bar_width 90 days; class = ssl_status_from_days (some days) })
  bar_of_days full (some days) =
      some (record { width = bar_width 365 days; class = some (domain_expiry_class (some days)) })

  -- `renderExpiryBar`; `none` is the empty text.
  unfoldable pub render_expiry_bar : ListType → Domain → Option Bar
  render_expiry_bar type d = bar_of_days type (bar_days type d)
