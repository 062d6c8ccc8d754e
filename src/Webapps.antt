-- ===== src/Webapps.antt =====
-- The list of web apps: `applyWebAppFilters`, `renderWebAppPagination`, `renderWebAppStats` and the
-- handlers of its chips, sort select, page size and page buttons. The cards and the table show the
-- same rows, here without the grouping by status.
pub mod Laws
mod Tests
pub mod Stats
pub mod Prefs
pub mod Axis
pub mod Chart
pub mod Details
pub mod Actions
use Prim.Native.Nat.{Ordering, compare}
use domain_ssl_checker.Platform.{Platform}
use domain_ssl_checker.Paging.{page_count, page_slice}
use domain_ssl_checker.Sorting.{sort_by}
use domain_ssl_checker.Domains.{Dir}
use domain_ssl_checker.Domains.Sort.{directed}
use domain_ssl_checker.Domains.Tld.{compare_text}
use domain_ssl_checker.Base.{
  ℕ, List, Text, Option, if◌then◌else◌, String, Bool, length, text_or, some, ◌==◌, str_eq, trim,
  text_eq, includes, not, ltb, ◌-◌, max, codes, none, ◌*◌, [], ◌||◌, ◌+◌, ◌&&◌, filter, leb, truthy,
  min,
}

-- A row of `/api/webapps`; null is `none`, or 0 in the two counts.
pub record Webapp : Type 0 where
  pub id : ℕ
  pub name : Text
  pub url : Text
  pub status : Option Text
  pub response_time_ms : Option ℕ
  pub total_checks : ℕ
  pub successful_checks : ℕ
  pub last_checked : Option Text

-- The globals of the list, with the value of the search box.
pub record WebappState : Type 0 where
  -- `_webappsCache`
  pub cached : List Webapp
  pub search : Text
  pub filter : Text
  pub key : String
  pub dir : Dir
  pub page : ℕ
  pub size : ℕ

-- What `renderWebAppPagination` writes, where the bar is visible.
pub record WebappBar : Type 0 where
  pub from : ℕ
  pub to : ℕ
  pub total : ℕ
  pub at_first : Bool
  pub at_last : Bool

pub record WebappShown : Type 0 where
  pub rows : List Webapp
  pub count : ℕ
  pub clear_visible : Bool
  pub bar : Option WebappBar

-- `a.status || 'unknown'`
abbrev pub status_or_unknown : Webapp → Text
status_or_unknown a = text_or a.status (codes "unknown")

-- `a.response_time_ms || 999999`
abbrev pub response_or_max : Option ℕ → ℕ
response_or_max none = 999999
response_or_max (some n) = if n == 0 then 999999 else n

-- The order of the quotients `successful / total`, without a check 0. The quotients of numbers of
-- less than 26 bits are different as doubles if they differ.
unfoldable pub compare_uptime : Webapp → Webapp → Ordering
compare_uptime a b =
    if a.total_checks == 0
    then (if b.total_checks == 0 then Ordering.eq else compare 0 b.successful_checks)
    else if b.total_checks == 0
    then compare a.successful_checks 0
    else compare (a.successful_checks * b.total_checks) (b.successful_checks * a.total_checks)

-- The buttons first, previous, next and last.
pub data PageButton : Type 0 where
  first prev next last : PageButton

abbrev pub page_after : PageButton → ℕ → ℕ
page_after first page = 1
page_after prev page = max 1 (page - 1)
page_after next page = page + 1
page_after last page = 9999

-- The slice of `renderWebAppCards` and `renderWebAppTable`, with their fallback to the last page,
-- and the page.
unfoldable pub webapp_rows : ℕ → ℕ → List Webapp → ℕ × List Webapp
webapp_rows page size apps =
    let pages = page_count (length apps) size in
    if length (page_slice page size apps) == 0 && ltb 0 (length apps)
    then (pages, page_slice pages size apps)
    else (page, page_slice page size apps)

module _ (p : Platform) where
  -- The comparator of `applyWebAppFilters`, before `dir`.
  unfoldable pub compare_webapps : String → Webapp → Webapp → Ordering
  compare_webapps key a b =
      if str_eq key "name"
      then compare_text (p.lower a.name) (p.lower b.name)
      else if str_eq key "url"
      then compare_text (p.lower a.url) (p.lower b.url)
      else if str_eq key "status"
      then compare_text (status_or_unknown a) (status_or_unknown b)
      else if str_eq key "response_time"
      then compare (response_or_max a.response_time_ms) (response_or_max b.response_time_ms)
      else if str_eq key "uptime_pct"
      then compare_uptime a b
      else if str_eq key "checked"
      then compare_text (text_or a.last_checked []) (text_or b.last_checked [])
      else Ordering.eq

  -- `q`
  abbrev pub query_of : WebappState → Text
  query_of s = trim (p.lower s.search)

  abbrev pub accepts_all : WebappState → Bool
  accepts_all s = text_eq s.filter (codes "all") && not (truthy (some (query_of s)))

  abbrev pub matches_app : Text → Webapp → Bool
  matches_app q a = includes (p.lower a.name) q || includes (p.lower a.url) q

  unfoldable pub filter_webapps : WebappState → List Webapp
  filter_webapps s =
      let by_status =
        if not (text_eq s.filter (codes "all"))
        then filter (λ a. text_eq (status_or_unknown a) s.filter) s.cached
        else s.cached in
      if truthy (some (query_of s)) then filter (matches_app (query_of s)) by_status else by_status

  unfoldable pub sorted_webapps : WebappState → List Webapp
  sorted_webapps s = sort_by (λ a b. directed s.dir (compare_webapps s.key a b)) (filter_webapps s)

  -- `renderWebAppPagination`: the page, brought into range, and the bar.
  unfoldable pub webapp_page : ℕ → WebappState → ℕ
  webapp_page n s = let pages = page_count n s.size in if ltb pages s.page then pages else s.page

  unfoldable pub webapp_bar : ℕ → ℕ → ℕ → Option WebappBar
  webapp_bar n page size =
      let start = (page - 1) * size in
      if leb n size
      then none
      else some (record {
        from = if n == 0 then 0 else start + 1;
        to = min (start + size) n;
        total = n;
        at_first = leb page 1;
        at_last = leb (page_count n size) page;
      })

  -- `sort` works in place: where no filter has made a new array, it is the cache that is sorted.
  unfoldable pub apply_web_app_filters : WebappState → WebappState × WebappShown
  apply_web_app_filters s =
      let sorted = sorted_webapps s in
      let page = webapp_page (length sorted) s in
      let (page', rows) = webapp_rows page s.size sorted in
      (
        record s { cached = if accepts_all s then sorted else s.cached; page = page' },
        record {
          rows = rows;
          count = length sorted;
          clear_visible = not (accepts_all s);
          bar = webapp_bar (length sorted) page s.size;
        },
      )

  unfoldable pub click_page : PageButton → WebappState → WebappState × WebappShown
  click_page b s = apply_web_app_filters (record s { page = page_after b s.page })

  unfoldable pub choose_webapp_filter : Text → WebappState → WebappState × WebappShown
  choose_webapp_filter f s = apply_web_app_filters (record s { filter = f; page = 1 })

  unfoldable pub choose_webapp_sort : String → Dir → WebappState → WebappState × WebappShown
  choose_webapp_sort key dir s = apply_web_app_filters (record s { key = key; dir = dir; page = 1 })

  unfoldable pub choose_webapp_size : ℕ → WebappState → WebappState × WebappShown
  choose_webapp_size size s = apply_web_app_filters (record s { size = size; page = 1 })
