-- ===== src/Domains/Sort.antt =====
-- `_sortDomains`, `_sortDaysValue` and the table `STATUS_ORDER`.
pub mod Laws
use Prim.Native.Nat.{Ordering, compare}
use domain_ssl_checker.Platform.{Platform}
use domain_ssl_checker.Sorting.{sort_by, flip}
use domain_ssl_checker.Domains.{
  ListType, full, ssl_only, Domain, ListState, SortState, Dir, asc, desc, status_of, or_pending,
}
use domain_ssl_checker.Base.{
  String, ℕ, Text, Option, ℤ, List, if◌then◌else◌, round_div, some, str_eq, sub_ℕ, min_ℤ, truthy,
  pos, text_or, compare_ℤ, [], none,
}

-- `STATUS_ORDER[status] ?? 99`
unfoldable pub status_order : String → ℕ
status_order status =
    if str_eq status "error"
    then 0
    else if str_eq status "expired"
    then 1
    else if str_eq status "critical"
    then 2
    else if str_eq status "warning"
    then 3
    else if str_eq status "caution"
    then 4
    else if str_eq status "watch"
    then 5
    else if str_eq status "healthy"
    then 6
    else if str_eq status "pending"
    then 7
    else 99

abbrev day_ms : ℕ
day_ms = 86400000

-- `dir * x`, by sign
abbrev pub directed : Dir → Ordering → Ordering
directed asc o = o
directed desc o = flip o

module _ (p : Platform) where
  -- `Math.round((new Date(date + 'T00:00:00Z') - new Date()) / 86400000)`
  unfoldable pub days_until : Text → ℤ
  days_until date = round_div (sub_ℕ (p.midnight_of date) p.now) day_ms

  -- The list `values` has 0, 1 or 2 entries.
  abbrev min_days : Option ℤ → Option ℤ → Option ℤ
  min_days (some a) (some b) = some (min_ℤ a b)
  min_days (some a) none = some a
  min_days none b = b

  abbrev manual_days : Option Text → ℤ
  manual_days date = if truthy date then days_until (text_or date []) else pos 9999

  unfoldable pub sort_days_value : ListType → Domain → ℤ
  sort_days_value ssl_only d = elim d.ssl_days_left [ some n ↦ n | none ↦ pos 9999 ]
  sort_days_value full d = elim (min_days d.domain_days_left d.ssl_days_left) [
    | some n ↦ n
    | none ↦ manual_days d.manual_expiry_date
  ]

  -- `a.last_checked ? new Date(a.last_checked).getTime() : 0`
  unfoldable pub checked_ms : Domain → ℕ
  checked_ms d = if truthy d.last_checked then p.time_of (text_or d.last_checked []) else 0

  -- The comparator of `_sortDomains`, before `dir`.
  unfoldable pub compare_domains : ListType → String → Domain → Domain → Ordering
  compare_domains type field a b =
      if str_eq field "url"
      then p.locale_compare (p.lower a.url) (p.lower b.url)
      else if str_eq field "status"
      then compare (status_order (or_pending (status_of type a)))
          (status_order (or_pending (status_of type b)))
      else if str_eq field "days"
      then compare_ℤ (sort_days_value type a) (sort_days_value type b)
      else if str_eq field "checked"
      then compare (checked_ms a) (checked_ms b)
      else if str_eq field "registrar"
      then p.locale_compare (p.lower (text_or a.domain_registrar []))
          (p.lower (text_or b.domain_registrar []))
      else if str_eq field "issuer"
      then p.locale_compare (p.lower (text_or a.ssl_issuer [])) (p.lower (text_or b.ssl_issuer []))
      else Ordering.eq

  abbrev pub domain_comparator : ListType → SortState → Domain → Domain → Ordering
  domain_comparator type s a b = directed s.dir (compare_domains type s.field a b)

  unfoldable pub sort_domains : ListType → SortState → List Domain → List Domain
  sort_domains type s ds = sort_by (domain_comparator type s) ds
