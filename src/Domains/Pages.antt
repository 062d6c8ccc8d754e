-- ===== src/Domains/Pages.antt =====
-- `renderDomains` and the pagination of a list: `totalPages`, `getPageItems`, `goToPage`,
-- `renderPagination`, `updateDomainResultSummary`, `applyDomainFilters`, `clearDomainFilters` and
-- the handlers of the chips, the TLD select, the page size and the sort headers.
-- What a function writes into the page is returned beside the new state. The rows are those without
-- the grouping by status; the statistics bar is not shown here. The search box is taken at the end
-- of its delay of 200 ms. Session has `applyDomainFilters` with the preferences that it saves.
pub mod Laws
pub mod Shows
pub mod SortClick
use domain_ssl_checker.Platform.{Platform}
use domain_ssl_checker.Paging.{page_count, page_slice}
use domain_ssl_checker.Domains.{ListType, Domain, ListState, Pagination, SortState, Dir, asc, desc}
use domain_ssl_checker.Domains.Filter.{get_filtered_domains}
use domain_ssl_checker.Domains.Sort.{sort_domains}
use domain_ssl_checker.Base.{
  List, ℕ, Bool, Option, String, Text, if◌then◌else◌, truthy, length, max, [], ltb, some, ◌==◌, leb,
  min, str_eq, trim, none, ◌||◌, ◌-◌, not, ◌*◌, ◌+◌,
}

-- What `renderDomains` leaves on the page.
pub record Shown : Type 0 where
  -- The rows or cards, in order.
  pub rows : List Domain
  -- The two numbers and the test of `updateDomainResultSummary`.
  pub filtered_count : ℕ
  pub total_count : ℕ
  pub has_filters : Bool
  -- The box "No domains …" is visible.
  pub is_empty : Bool

-- What `renderPagination` writes, where the bar is visible.
pub record PageBar : Type 0 where
  pub from : ℕ
  pub to : ℕ
  pub total : ℕ
  pub at_first : Bool
  pub at_last : Bool

unfoldable pub get_page_items {ℓ} : {A : Type ℓ} → Pagination → List A → List A
get_page_items p xs = page_slice p.page p.page_size xs

-- The two lines of `renderDomains` that bring the page into the range of `n` rows.
unfoldable pub clamp_page : ℕ → Pagination → Pagination
clamp_page n p =
    let max_page = page_count n p.page_size in
    if ltb max_page p.page then record p { page = max_page } else p

abbrev pub with_page : ℕ → ListState → ListState
with_page page s = record s { pagination = record s.pagination { page = page } }

-- The test of `updateDomainResultSummary`.
abbrev pub has_filters_of : ListState → Bool
has_filters_of s = truthy (some (trim s.search)) || not (str_eq s.chip "all") || truthy (some s.tld)

-- `if (s.field === field) { s.dir *= -1; } else { s.field = field; s.dir = 1; }`
abbrev pub turned : Dir → Dir
turned asc = desc
turned desc = asc

abbrev pub next_sort : String → SortState → SortState
next_sort field s =
    if str_eq s.field field
    then record s { dir = turned s.dir }
    else record { field = field; dir = asc }

module _ (p : Platform) (type : ListType) where
  unfoldable pub render_domains : List Domain → ListState → ListState × Shown
  render_domains ds s =
      let sorted = sort_domains p type s.sort ds in
      let pagination' = clamp_page (length sorted) s.pagination in
      (
        record s { pagination = pagination' },
        record {
          rows = get_page_items pagination' sorted;
          filtered_count = length sorted;
          total_count = length s.cached;
          has_filters = has_filters_of s;
          is_empty = length sorted == 0;
        },
      )

  unfoldable pub total_pages : ListState → ℕ
  total_pages s = page_count (length (get_filtered_domains p type s)) s.pagination.page_size

  unfoldable pub render_pagination : ListState → Option PageBar
  render_pagination s =
      let n = length (get_filtered_domains p type s) in
      let page = s.pagination.page in
      let size = s.pagination.page_size in
      if leb n size
      then none
      else some (record {
        from = (page - 1) * size + 1;
        to = min (page * size) n;
        total = n;
        at_first = leb page 1;
        at_last = leb (total_pages s) page;
      })

  -- `applyDomainFilters`: the new state, the list and the bar.
  unfoldable pub apply_domain_filters : ListState → ListState × Shown × Option PageBar
  apply_domain_filters s =
      let (s', shown) = render_domains (get_filtered_domains p type s) s in
      (s', shown, render_pagination s')

  -- The buttons pass 1, the page before or after, or `totalPages`; below 1 is 1.
  unfoldable pub go_to_page : ℕ → ListState → ListState × Shown × Option PageBar
  go_to_page page s = apply_domain_filters (with_page (max 1 (min page (total_pages s))) s)

  unfoldable pub clear_domain_filters : ListState → ListState × Shown × Option PageBar
  clear_domain_filters s =
      apply_domain_filters (with_page 1 (record s { search = []; tld = []; chip = "all" }))

  -- The chips, the TLD select, the page size and the search box, each back to page 1.
  unfoldable pub choose_chip : String → ListState → ListState × Shown × Option PageBar
  choose_chip chip s = apply_domain_filters (with_page 1 (record s { chip = chip }))

  unfoldable pub choose_tld : Text → ListState → ListState × Shown × Option PageBar
  choose_tld tld s = apply_domain_filters (with_page 1 (record s { tld = tld }))

  unfoldable pub choose_page_size : ℕ → ListState → ListState × Shown × Option PageBar
  choose_page_size size s =
      apply_domain_filters (record s { pagination = record { page = 1; page_size = size } })

  unfoldable pub type_search : Text → ListState → ListState × Shown × Option PageBar
  type_search text s = apply_domain_filters (with_page 1 (record s { search = text }))

  -- The click on a sort header or button: it renders the whole cached list.
  unfoldable pub click_sort : String → ListState → ListState × Shown × Option PageBar
  click_sort field s =
      let (s', shown) = render_domains s.cached (record s { sort = next_sort field s.sort }) in
      (s', shown, render_pagination s')
