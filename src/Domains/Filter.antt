-- ===== src/Domains/Filter.antt =====
-- `getFilteredDomains`, `extractTlds`, and what the three filters do together.
pub mod Laws
pub mod Texts
pub mod Shown
use domain_ssl_checker.Base.{
  ℕ, ◌-◌, Text, codes, Option, none, some, String, str_eq, Bool, true, false, not, ◌||◌, ◌&&◌, List,
  [], ◌∷◌, ◌++◌, if◌then◌else◌, includes, truthy, split, join, drop, length, ltb, text_eq, filter,
}
use domain_ssl_checker.Platform.{Platform}
use domain_ssl_checker.Domains.{ListType, Domain, ListState, status_of, status_is}

-- `parts.slice(-2)`
abbrev pub last_two : List Text → List Text
last_two parts = drop (length parts - 2) parts

-- `parts.length > 1 ? '.' + parts.slice(-2).join('.') : none`, for `parts = url.split('.')`
abbrev pub tld_of_parts : List Text → Option Text
tld_of_parts parts =
    if ltb 1 (length parts) then some (codes "." ++ join (codes ".") (last_two parts)) else none

unfoldable pub tld_of : Text → Option Text
tld_of url = tld_of_parts (split b'.' url)

-- `tld_of url === tld`
abbrev pub found_is : Option Text → Text → Bool
found_is none tld = false
found_is (some t) tld = text_eq t tld

unfoldable pub has_tld : Text → Domain → Bool
unfolding tld_of
has_tld tld d = found_is (tld_of d.url) tld

-- `domains.filter(...)` of the chip `chip`; a chip with no branch filters nothing.
unfoldable pub filter_by_chip : ListType → String → List Domain → List Domain
filter_by_chip type chip ds =
    if str_eq chip "healthy"
    then filter (λ d. status_is (status_of type d) "healthy") ds
    else if str_eq chip "warning" || str_eq chip "watch"
    then filter
        (λ d. status_is (status_of type d) "watch" || status_is (status_of type d) "warning") ds
    else if str_eq chip "caution"
    then filter (λ d. status_is (status_of type d) "caution") ds
    else if str_eq chip "critical"
    then filter (λ d. status_is (status_of type d) "critical") ds
    else if str_eq chip "expired"
    then filter (λ d. status_is (status_of type d) "expired") ds
    else if str_eq chip "error"
    then filter (λ d. status_is (status_of type d) "error") ds
    else ds

module _ (p : Platform) where
  -- `x && x.toLowerCase().includes(query)`
  abbrev pub field_includes : Option Text → Text → Bool
  field_includes none query = false
  field_includes (some s) query = truthy (some s) && includes (p.lower s) query

  unfoldable pub matches_query : Text → Domain → Bool
  matches_query query d =
      includes (p.lower d.url) query
      || field_includes d.manual_registrar query
      || field_includes d.notes query

  -- The three `if`s of `getFilteredDomains`, in order.
  unfoldable pub by_query : Text → List Domain → List Domain
  by_query query ds = if truthy (some query) then filter (matches_query query) ds else ds

  unfoldable pub by_chip : ListType → String → List Domain → List Domain
  by_chip type chip ds = if not (str_eq chip "all") then filter_by_chip type chip ds else ds

  unfoldable pub by_tld : Text → List Domain → List Domain
  by_tld tld ds = if truthy (some tld) then filter (has_tld tld) ds else ds

  unfoldable pub get_filtered_domains : ListType → ListState → List Domain
  get_filtered_domains type s =
      by_tld s.tld (by_chip type s.chip (by_query (p.lower s.search) s.cached))
