-- ===== src/Dashboard.antt =====
-- The dashboard: what its tiles open, the search for a row, and the lists of what expires.
pub mod Laws
pub mod Cache
pub mod Summary
use domain_ssl_checker.Platform.{Platform}
use domain_ssl_checker.Views.{Page, activate_view}
use domain_ssl_checker.Domains.{ListType, full, ssl_only, ListState, Domain}
use domain_ssl_checker.Domains.Pages.{apply_domain_filters, clear_domain_filters}
use domain_ssl_checker.Base.{
  String, Option, List, ℕ, Bool, if◌then◌else◌, some, any, ℤ, ◌∷◌, str_eq, none, ◌==◌, negsuc, [],
  ◌+◌, pos, leb, ◌*◌, ◌-◌, ◌/◌,
}

-- `activeView` and the hash, set as a tile of the dashboard does.
abbrev pub go_to : String → Page → Page
go_to view s = activate_view view (record s { hash = view })

abbrev pub view_of : ListType → String
view_of full = "domains"
view_of ssl_only = "sslcerts"

-- `status === 'warning' ? (type === 'ssl_only' ? 'watch' : 'warning') : status`
abbrev pub dash_chip : ListType → String → String
dash_chip full status = status
dash_chip ssl_only status = if str_eq status "warning" then "watch" else status

-- `filterDomainsFromDash` of a list; for "all" it only opens the domains.
unfoldable pub filter_domains_from_dash :
    Platform → Option ListType → String → Page × ListState → Page × ListState
filter_domains_from_dash p none status (page, s) = (go_to "domains" page, s)
filter_domains_from_dash p (some type) status (page, s) = (
  go_to (view_of type) page,
  (apply_domain_filters p type
      (record (clear_domain_filters p type s).0 { chip = dash_chip type status })).0,
)

-- The two lists of `_cachedDomains`, and the card that is highlighted.
pub record Cards : Type 0 where
  pub full_rows : List Domain
  pub ssl_rows : List Domain
  pub highlighted : Option (ListType × ℕ)

abbrev pub has_row : ℕ → List Domain → Bool
has_row id ds = any (λ d. d.id == id) ds

abbrev pub highlight : ListType → ℕ → Page × Cards → Page × Cards
highlight type id (page, c) =
    (go_to (view_of type) page, record c { highlighted = some (type, id) })

-- What `navigateToDomain` does with the rows that the server sends.
abbrev pub look_up : List Domain → List Domain → ℕ → Page × Cards → Page × Cards
look_up sent_full sent_ssl id (page, c) =
    let c' : Cards = record c { full_rows = sent_full } in
    if has_row id sent_full
    then highlight full id (page, c')
    else highlight ssl_only id (page, record c' { ssl_rows = sent_ssl })

-- `navigateToDomain`, where the server answers with these two lists if it is asked.
unfoldable pub navigate_to_domain : List Domain → List Domain → ℕ → Page × Cards → Page × Cards
navigate_to_domain sent_full sent_ssl id (page, c) =
    if has_row id c.full_rows
    then highlight full id (page, c)
    else if has_row id c.ssl_rows
    then highlight ssl_only id (page, c)
    else look_up sent_full sent_ssl id (page, c)

-- The class of a row of `renderExpiringList`, for a list up to 90 or 30 days. `half * 0.34` is 15.3
-- or 5.1, and the days are whole.
pub data Severity : Type 0 where
  danger warning caution : Severity

abbrev pub max_days : Bool → ℕ
max_days is_domain = if is_domain then 90 else 30

unfoldable pub severity_of : Bool → ℤ → Severity
severity_of is_domain (negsuc n) = danger
severity_of is_domain (pos d) =
    if leb d (if is_domain then 15 else 5)
    then danger
    else if leb (2 * d) (max_days is_domain)
    then warning
    else caution

-- `Math.min(100, Math.round((1 - days / maxDays) * 100))`, for days up to the maximum; for a maximum of
-- 90 or 30 the doubles of the page give what the exact number gives, for each of these days.
unfoldable pub severity_percent : Bool → ℤ → ℕ
severity_percent is_domain (negsuc n) = 100
severity_percent is_domain (pos d) =
    (200 * (max_days is_domain - d) + max_days is_domain) / (2 * max_days is_domain)

-- `renderExpiryBuckets`: the counts of one half, in their order, and their total.
pub record Buckets : Type 0 where
  pub expired : ℕ
  pub critical : ℕ
  pub warning : ℕ
  pub caution : ℕ
  pub healthy : ℕ

abbrev pub bucket_counts : Buckets → List ℕ
bucket_counts b = b.expired ∷ b.critical ∷ b.warning ∷ b.caution ∷ b.healthy ∷ []

unfoldable pub bucket_total : List ℕ → ℕ
bucket_total [] = 0
bucket_total (n ∷ ns) = n + bucket_total ns
