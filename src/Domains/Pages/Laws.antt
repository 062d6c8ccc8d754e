-- ===== src/Domains/Pages/Laws.antt =====
-- What the page shows after each operation of a list.
use domain_ssl_checker.Platform.{Platform}
use domain_ssl_checker.Paging.{page_count, page_slice, div_ceil_lower}
use domain_ssl_checker.Paging.Cover.{length-page_slice}
use domain_ssl_checker.Sorting.Laws.{length-sort_by}
use domain_ssl_checker.Domains.{ListType, Domain, ListState, Pagination}
use domain_ssl_checker.Domains.Filter.{get_filtered_domains}
use domain_ssl_checker.Domains.Sort.{sort_domains}
use domain_ssl_checker.Domains.Pages.{
  get_page_items, clamp_page, with_page, render_domains, total_pages, render_pagination,
  apply_domain_filters, PageBar,
}
use domain_ssl_checker.Base.{
  ℕ, List, length, ◌≡◌, ◌<◌, min, ap, arith, ◌-◌, ◌≤◌, ◌*◌, ◌∷◌, [], Option, ◌+◌, suc, leb,
  if◌then◌else◌, zero, none, some, ◌==◌,
}

pub page_count-pos : (n size : ℕ) → 0 < page_count n size
unfolding page_count
page_count-pos n size = ground arith

-- The last page starts before the end of the list.
pub last_page-starts : (n size : ℕ) → 0 < n → 0 < size → (page_count n size - 1) * size < n
unfolding page_count
last_page-starts n size h k = grind (arith, div_ceil_lower n size k)

-- On a page in range, there is a row if there is one in the list.
pub min-le-length-page_slice {ℓ} :
    {A : Type ℓ} (page size : ℕ) (xs : List A)
    → 0 < size
    → 0 < page
    → page ≤ page_count (length xs) size
    → min 1 (length xs) ≤ length (page_slice page size xs)
min-le-length-page_slice page size [] h k le = omega arith
min-le-length-page_slice page size (x ∷ xs) h k le =
    let n : ℕ = length (x ∷ xs) in
    let starts : (page_count n size - 1) * size < n = last_page-starts n size (omega arith) h in
    let mono : (page - 1) * size ≤ (page_count n size - 1) * size = grind arith in
    rw (length-page_slice page size (x ∷ xs) k) (omega arith)

pub clamp_page_lem :
    (n : ℕ) (pg : Pagination)
    → clamp_page n pg ≡ record pg { page = min pg.page (page_count n pg.page_size) }
unfolding clamp_page
clamp_page_lem n pg = ground arith

module _ (p : Platform) (type : ListType) where
  -- The list that the filters leave, in the order of the sort.
  abbrev pub listed : ListState → List Domain
  listed s = sort_domains p type s.sort (get_filtered_domains p type s)

  pub length-listed : (s : ListState) → length (listed s) ≡ length (get_filtered_domains p type s)
  unfolding sort_domains
  length-listed s = length-sort_by _ (get_filtered_domains p type s)

  -- The page that is shown when page `page` is asked for.
  abbrev pub page_in_range : ListState → ℕ
  page_in_range s = min s.pagination.page (total_pages p type s)

  pub apply_domain_filters-page :
      (s : ListState) → (apply_domain_filters p type s).0 ≡ with_page (page_in_range s) s
  unfolding apply_domain_filters render_domains total_pages
  apply_domain_filters-page s = rw (clamp_page_lem, length-listed s)

  pub apply_domain_filters-rows :
      (s : ListState)
      → (apply_domain_filters p type s).1.rows
        ≡ page_slice (page_in_range s) s.pagination.page_size (listed s)
  unfolding apply_domain_filters render_domains total_pages get_page_items
  apply_domain_filters-rows s = rw (clamp_page_lem, length-listed s)

  pub apply_domain_filters-bar :
      (s : ListState)
      → (apply_domain_filters p type s).2 ≡ render_pagination p type (with_page (page_in_range s) s)
  unfolding apply_domain_filters
  apply_domain_filters-bar s = ap (render_pagination p type) (apply_domain_filters-page s)

  -- The bar of a state whose page is in range, by the rows that the page holds.
  abbrev pub bar_of : ℕ → ListState → List Domain → Option PageBar
  bar_of page s rows =
      let n = length (get_filtered_domains p type s) in
      let before = (page - 1) * s.pagination.page_size in
      if leb n s.pagination.page_size
      then none
      else some (record {
        from = before + 1;
        to = before + length rows;
        total = n;
        at_first = page == 1;
        at_last = page == total_pages p type s;
      })

  to_label :
      (page size : ℕ) (xs : List Domain)
      → 0 < size
      → 0 < page
      → page ≤ page_count (length xs) size
      → 0 < length xs
      → min (page * size) (length xs) ≡ (page - 1) * size + length (page_slice page size xs)
  to_label zero size xs h k le pos = absurd (omega arith)
  to_label (suc i) size xs h k le pos =
      let n : ℕ = length xs in
      let starts : (page_count n size - 1) * size < n = last_page-starts n size pos h in
      let mono : (suc i - 1) * size ≤ (page_count n size - 1) * size = grind arith in
      let split : suc i * size ≡ (suc i - 1) * size + size = grind arith in
      rw (length-page_slice (suc i) size xs k) (omega arith)

  to_label_listed :
      (s : ListState)
      → 0 < s.pagination.page_size
      → 0 < s.pagination.page
      → s.pagination.page ≤ total_pages p type s
      → s.pagination.page_size < length (get_filtered_domains p type s)
      → min (s.pagination.page * s.pagination.page_size) (length (get_filtered_domains p type s))
        ≡ (s.pagination.page - 1) * s.pagination.page_size
          + length (page_slice s.pagination.page s.pagination.page_size (listed s))
  unfolding total_pages
  to_label_listed s h k le more = rw (← length-listed s) (
      to_label s.pagination.page s.pagination.page_size (listed s) h k (rw length-listed le)
        (rw length-listed (omega arith)))

  pub render_pagination_lem :
      (s : ListState)
      → 0 < s.pagination.page_size
      → 0 < s.pagination.page
      → s.pagination.page ≤ total_pages p type s
      → render_pagination p type s
        ≡ bar_of s.pagination.page s
            (page_slice s.pagination.page s.pagination.page_size (listed s))
  unfolding render_pagination
  render_pagination_lem s h k le = ground (arith, to_label_listed s h k le)
