-- ===== src/Domains.antt =====
-- The two lists of ssl_domain_checker/static/app.js, `full` (Domains) and `ssl_only` (SSL Certs):
-- the rows that the server sends and the state that the page keeps for each list.
pub mod Filter
pub mod Sort
pub mod Tld
pub mod Pages
pub mod Notes
mod Tests
use domain_ssl_checker.Base.{
  ℕ, Text, Option, none, some, String, str_eq, ℤ, Bool, false, List, if◌then◌else◌,
}

-- The `type` of a list, and of the views that show it.
pub data ListType : Type 0 where
  full ssl_only : ListType

-- A row of `/api/domains`. A column that the server sends as null is `none`.
pub record Domain : Type 0 where
  pub id : ℕ
  pub url : Text
  pub ssl_status : Option String
  pub domain_status : Option String
  pub ssl_days_left : Option ℤ
  pub domain_days_left : Option ℤ
  pub ssl_issuer : Option Text
  pub domain_registrar : Option Text
  pub manual_registrar : Option Text
  pub manual_expiry_date : Option Text
  pub last_checked : Option Text
  pub notes : Option Text

-- `d[type === 'ssl_only' ? 'ssl_status' : 'domain_status']`
abbrev pub status_of : ListType → Domain → Option String
status_of full d = d.domain_status
status_of ssl_only d = d.ssl_status

-- `status || 'pending'`
abbrev pub or_pending : Option String → String
or_pending none = "pending"
or_pending (some s) = if str_eq s "" then "pending" else s

-- `status === s`
abbrev pub status_is : Option String → String → Bool
status_is none s = false
status_is (some t) s = str_eq t s

-- One slot of `_pagination`.
pub record Pagination : Type 0 where
  pub page : ℕ
  pub page_size : ℕ

-- `dir` is 1 or -1.
pub data Dir : Type 0 where
  asc desc : Dir

pub record SortState : Type 0 where
  pub field : String
  pub dir : Dir

-- The slots `[type]` of the page's global variables, with the value of the search box.
pub record ListState : Type 0 where
  -- `_cachedDomains[type]`
  pub cached : List Domain
  pub search : Text
  -- `_domainFilter[type]`
  pub chip : String
  -- `_tldFilter[type]`, empty for all
  pub tld : Text
  pub sort : SortState
  pub pagination : Pagination
