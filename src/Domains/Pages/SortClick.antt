-- ===== src/Domains/Pages/SortClick.antt =====
-- The click on a sort header: it renders the cached list, whatever the filters are.
use domain_ssl_checker.Platform.{Platform}
use domain_ssl_checker.Paging.{page_count, page_slice}
use domain_ssl_checker.Sorting.Laws.{length-sort_by}
use domain_ssl_checker.Domains.{ListType, Domain, ListState}
use domain_ssl_checker.Domains.Filter.{get_filtered_domains}
use domain_ssl_checker.Domains.Sort.{sort_domains}
use domain_ssl_checker.Domains.Pages.{
  click_sort, next_sort, render_domains, render_pagination, get_page_items,
}
use domain_ssl_checker.Domains.Pages.Laws.{page_count-pos, min-le-length-page_slice, clamp_page_lem}
use domain_ssl_checker.Base.{String, List, length, ◌≡◌, ◌<◌, min, arith, [], none}

module _ (p : Platform) (type : ListType) (field : String) (s : ListState) where
  abbrev sorted_cache : List Domain
  sorted_cache = sort_domains p type (next_sort field s.sort) s.cached

  length-sorted_cache : length sorted_cache ≡ length s.cached
  unfolding sort_domains
  length-sorted_cache = length-sort_by _ s.cached

  click_sort-rows :
      (click_sort p type field s).1.rows
      ≡ page_slice
          (min s.pagination.page (page_count (length s.cached) s.pagination.page_size))
          s.pagination.page_size
          sorted_cache
  unfolding click_sort render_domains get_page_items
  click_sort-rows = rw (clamp_page_lem, length-sorted_cache)

  some_row_of_cache :
      0 < length s.cached
      → 0 < s.pagination.page_size
      → 0 < s.pagination.page
      → 0 < length (click_sort p type field s).1.rows
  some_row_of_cache pos h k = rw click_sort-rows (
      omega (
        arith,
        length-sorted_cache,
        min-le-length-page_slice
            (min s.pagination.page (page_count (length s.cached) s.pagination.page_size))
            s.pagination.page_size sorted_cache h
            (omega (arith, page_count-pos (length s.cached) s.pagination.page_size))
            (rw length-sorted_cache (omega arith)),
      ))

  click_sort-filtered_count : (click_sort p type field s).1.filtered_count ≡ length s.cached
  unfolding click_sort render_domains
  click_sort-filtered_count = length-sorted_cache

  click_sort-bar : get_filtered_domains p type s ≡ [] → (click_sort p type field s).2 ≡ none
  unfolding click_sort render_pagination render_domains get_filtered_domains
  click_sort-bar e = rw e (ground arith)

  -- Where the filters match no row of a list that has some, a click on a sort header, on page 1 or
  -- above and with a page size above 0, still shows rows of the list, counts all rows as filtered,
  -- and hides the page bar.
  pub click_sort_ignores_filters :
      get_filtered_domains p type s ≡ []
      → 0 < length s.cached
      → 0 < s.pagination.page_size
      → 0 < s.pagination.page
      → (0 < length (click_sort p type field s).1.rows)
        × ((click_sort p type field s).1.filtered_count ≡ length s.cached)
        × ((click_sort p type field s).2 ≡ none)
  click_sort_ignores_filters none_match pos h k =
      (some_row_of_cache pos h k, click_sort-filtered_count, click_sort-bar none_match)
