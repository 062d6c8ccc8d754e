-- ===== src/Webapps/Laws.antt =====
-- What `applyWebAppFilters` shows and what it does to the cache.
use mathlib.Core.List.{Perm}
use mathlib.Core.List.Perm
use mathlib.Core.Path.{subst}
use domain_ssl_checker.Sorting.Laws.{sort_by-perm}
use domain_ssl_checker.Domains.Pages.Laws.{page_count-pos, min-le-length-page_slice}
use domain_ssl_checker.Platform.{Platform}
use domain_ssl_checker.Webapps.{
  WebappState, webapp_page, webapp_rows, filter_webapps, sorted_webapps, apply_web_app_filters,
  accepts_all,
}
use domain_ssl_checker.Base.{
  ℕ, ◌<◌, min, ◌≡◌, if◌then◌else◌, length, true, arith, ◌≤◌, Bool, ap, List, false, refl,
}
use domain_ssl_checker.Paging.{page_count, page_slice}

-- The page that is shown.
abbrev pub page_of : Platform → WebappState → ℕ
page_of p s = min s.page (page_count (length (sorted_webapps p s)) s.size)

Perm-if {ℓ} :
    {A : Type ℓ} (b : Bool) (xs ys : List A)
    → (b ≡ true → Perm xs ys)
    → Perm (if b then xs else ys) ys
Perm-if true xs ys h = h refl
Perm-if false xs ys h = Perm.refl ys

module _ (p : Platform) (s : WebappState) where
  webapp_page_lem : (n : ℕ) → webapp_page p n s ≡ min s.page (page_count n s.size)
  unfolding webapp_page
  webapp_page_lem n = ground arith

  some_app :
      0 < s.size
      → 0 < s.page
      → min 1 (length (sorted_webapps p s))
        ≤ length (page_slice (page_of p s) s.size (sorted_webapps p s))
  some_app h k =
      min-le-length-page_slice (page_of p s) s.size (sorted_webapps p s) h
        (omega (arith, page_count-pos (length (sorted_webapps p s)) s.size)) (omega arith)

  -- The fallback of the slice is not needed.
  webapp_rows_lem :
      0 < s.size
      → 0 < s.page
      → webapp_rows (page_of p s) s.size (sorted_webapps p s)
        ≡ (page_of p s, page_slice (page_of p s) s.size (sorted_webapps p s))
  unfolding webapp_rows
  webapp_rows_lem h k = ground (arith, some_app h k)

  accepts_all-filter : accepts_all p s ≡ true → filter_webapps p s ≡ s.cached
  unfolding filter_webapps
  accepts_all-filter e = ground arith

  cached-Perm : Perm (if accepts_all p s then sorted_webapps p s else s.cached) s.cached
  unfolding sorted_webapps
  cached-Perm = Perm-if (accepts_all p s) _ s.cached (λ e.
      subst (Perm (sorted_webapps p s)) (accepts_all-filter e)
        (sort_by-perm _ (filter_webapps p s)))

  -- From page 1 or above, with a page size above 0, the page shown is the one asked for or the
  -- last one, the rows are its slice of the sorted list that the filters leave, some row if there
  -- is one, and the cache holds the same rows as before, whether or not it was sorted.
  pub apply_web_app_filters_lem :
      0 < s.size
      → 0 < s.page
      → ((apply_web_app_filters p s).0.page ≡ page_of p s)
        × ((apply_web_app_filters p s).1.rows
            ≡ page_slice (page_of p s) s.size (sorted_webapps p s))
        × (min 1 (length (sorted_webapps p s)) ≤ length (apply_web_app_filters p s).1.rows)
        × Perm (apply_web_app_filters p s).0.cached s.cached
  unfolding apply_web_app_filters
  apply_web_app_filters_lem h k =
      let same : webapp_rows (webapp_page p (length (sorted_webapps p s)) s) s.size
            (sorted_webapps p s)
          ≡ (page_of p s, page_slice (page_of p s) s.size (sorted_webapps p s)) =
        rw webapp_page_lem (webapp_rows_lem h k) in
      (ap (λ r. r.0) same, ap (λ r. r.1) same, rw same (some_app h k), cached-Perm)
