-- ===== src/Domains/Pages/Shows.antt =====
-- The page that `applyDomainFilters` and `goToPage` show, and the sort headers.
use domain_ssl_checker.Platform.{Platform}
use domain_ssl_checker.Paging.{page_count, page_slice}
use domain_ssl_checker.Paging.Cover.{pages_upto, pages_cover}
use domain_ssl_checker.Domains.{ListType, Domain, ListState}
use domain_ssl_checker.Domains.Filter.{get_filtered_domains}
use domain_ssl_checker.Domains.Sort.{sort_domains}
use domain_ssl_checker.Domains.Pages.{
  with_page, total_pages, apply_domain_filters, go_to_page, render_pagination,
}
use domain_ssl_checker.Domains.Pages.Laws.{
  page_count-pos, min-le-length-page_slice, listed, length-listed, page_in_range, bar_of,
  apply_domain_filters-page, apply_domain_filters-rows, apply_domain_filters-bar,
  render_pagination_lem,
}
use domain_ssl_checker.Base.{
  ◌<◌, ℕ, ◌≡◌, List, suc, ◌≤◌, min, [], ◌∙◌, arith, length, ◌++◌, ap, zero, refl, max,
}

module _ (p : Platform) (type : ListType) where
  filtered-with_page :
      (page : ℕ) (s : ListState)
      → get_filtered_domains p type (with_page page s) ≡ get_filtered_domains p type s
  unfolding get_filtered_domains
  filtered-with_page page s = refl

  total_pages-with_page :
      (page : ℕ) (s : ListState) → total_pages p type (with_page page s) ≡ total_pages p type s
  unfolding total_pages
  total_pages-with_page page s =
      ap (λ ds. page_count (length ds) s.pagination.page_size) (filtered-with_page page s)

  listed-with_page : (page : ℕ) (s : ListState) → listed p type (with_page page s) ≡ listed p type s
  listed-with_page page s = ap (sort_domains p type s.sort) (filtered-with_page page s)

  page_in_range-pos : (s : ListState) → 0 < s.pagination.page → 0 < page_in_range p type s
  unfolding total_pages
  page_in_range-pos s k =
      omega (arith, page_count-pos (length (get_filtered_domains p type s)) s.pagination.page_size)

  some_row :
      (s : ListState)
      → 0 < s.pagination.page_size
      → 0 < s.pagination.page
      → min 1 (length (get_filtered_domains p type s))
        ≤ length (page_slice (page_in_range p type s) s.pagination.page_size (listed p type s))
  unfolding total_pages
  some_row s h k = omega (
    arith,
    length-listed p type s,
    min-le-length-page_slice (page_in_range p type s) s.pagination.page_size (listed p type s) h
        (page_in_range-pos s k) (rw length-listed (omega arith)),
  )

  bar_in_range :
      (s : ListState)
      → 0 < s.pagination.page_size
      → 0 < s.pagination.page
      → render_pagination p type (with_page (page_in_range p type s) s)
        ≡ bar_of p type
            (page_in_range p type s)
            s
            (page_slice (page_in_range p type s) s.pagination.page_size (listed p type s))
  bar_in_range s h k =
      let page : ℕ = page_in_range p type s in
      render_pagination_lem p type (with_page page s) h (page_in_range-pos s k)
        (omega (arith, total_pages-with_page page s))
      ∙ rw (filtered-with_page page s, total_pages-with_page page s)

  -- From page 1 or above, with a page size above 0, the page that is shown is the one asked for or
  -- the last one. Its rows are that slice of the sorted list that the filters leave, some row if
  -- there is one. The bar is hidden if all rows fit on a page; else its labels count these rows,
  -- and its buttons are disabled at the first and at the last page.
  pub apply_domain_filters_lem :
      (s : ListState)
      → 0 < s.pagination.page_size
      → 0 < s.pagination.page
      → ((apply_domain_filters p type s).0 ≡ with_page (page_in_range p type s) s)
        × ((apply_domain_filters p type s).1.rows
            ≡ page_slice (page_in_range p type s) s.pagination.page_size (listed p type s))
        × (min 1 (length (get_filtered_domains p type s))
            ≤ length (apply_domain_filters p type s).1.rows)
        × ((apply_domain_filters p type s).2
            ≡ bar_of p type (page_in_range p type s) s (apply_domain_filters p type s).1.rows)
  apply_domain_filters_lem s h k = (
    apply_domain_filters-page p type s,
    apply_domain_filters-rows p type s,
    rw apply_domain_filters-rows (some_row s h k),
    rw (apply_domain_filters-bar, apply_domain_filters-rows) (bar_in_range s h k),
  )

  -- The rows that the pages 1 to `n` show, one page after the other.
  abbrev pub visit : ℕ → ListState → List Domain
  visit zero s = []
  visit (suc n) s = visit n s ++ (go_to_page p type (suc n) s).1.rows

  go_to_page-rows :
      (n : ℕ) (s : ListState)
      → suc n ≤ total_pages p type s
      → (go_to_page p type (suc n) s).1.rows
        ≡ page_slice (suc n) s.pagination.page_size (listed p type s)
  unfolding go_to_page
  go_to_page-rows n s h =
      let page : ℕ = max 1 (min (suc n) (total_pages p type s)) in
      let same : page_in_range p type (with_page page s) ≡ suc n =
        omega (arith, total_pages-with_page page s) in
      rw (apply_domain_filters-rows, same, listed-with_page page s)

  visit-eq-pages_upto :
      (n : ℕ) (s : ListState)
      → n ≤ total_pages p type s
      → visit n s ≡ pages_upto n s.pagination.page_size (listed p type s)
  visit-eq-pages_upto zero s h = refl
  visit-eq-pages_upto (suc n) s h =
      rw (visit-eq-pages_upto n s (omega arith), go_to_page-rows n s h)

  -- With a page size above 0, going through all pages shows every row that the filters leave once,
  -- in the order of the sort.
  pub visit_all :
      (s : ListState)
      → 0 < s.pagination.page_size
      → visit (total_pages p type s) s ≡ sort_domains p type s.sort (get_filtered_domains p type s)
  unfolding total_pages
  visit_all s h =
      visit-eq-pages_upto (total_pages p type s) s (omega arith)
      ∙ rw (← length-listed p type s) (pages_cover s.pagination.page_size (listed p type s) h)
