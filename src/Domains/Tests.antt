-- ===== src/Domains/Tests.antt =====
-- The theorems on the domain lists at a list of three rows.
use Prim.Native.Nat.{compare}
use domain_ssl_checker.Platform.{Platform}
use domain_ssl_checker.Sorting.{IsComparison}
use domain_ssl_checker.Base.{
  ℕ, List, length, Text, [], codes, String, ◌∷◌, ◌≡◌, some, any, none, arith, pos, ◌<◌, min, ◌≤◌,
  refl,
}
use domain_ssl_checker.Domains.{ListState, Domain, ssl_only, asc}
use domain_ssl_checker.Domains.Filter.{
  get_filtered_domains, by_query, by_chip, by_tld, has_tld, matches_query,
}
use domain_ssl_checker.Domains.Sort.{sort_domains}
use domain_ssl_checker.Domains.Tld.{contains, extract_tlds, extract_tlds_lem}
use domain_ssl_checker.Domains.Pages.{apply_domain_filters, total_pages, with_page, click_sort}
use domain_ssl_checker.Domains.Pages.Shows.{visit, visit_all, apply_domain_filters_lem}
use domain_ssl_checker.Sorting.Laws.{IsComparison-on, IsComparison-compare}
use domain_ssl_checker.Domains.Filter.Shown.{Shown}
use domain_ssl_checker.Domains.Pages.Laws.{page_in_range, listed, bar_of}
use domain_ssl_checker.Paging.{page_slice}
use domain_ssl_checker.Domains.Pages.SortClick.{click_sort_ignores_filters}

-- The order of `locale_compare` here is that of the lengths.
abbrev test_platform : Platform
test_platform = record {
  lower = λ t. t;
  locale_compare = λ a b. compare (length a) (length b);
  time_of = length;
  midnight_of = length;
  now = 0;
}

locale_compare-IsComparison : IsComparison test_platform.locale_compare
locale_compare-IsComparison = IsComparison-on IsComparison-compare length

abbrev row : ℕ → Text → String → ℕ → Domain
row id url status days = record {
  id = id;
  url = url;
  ssl_status = some status;
  domain_status = none;
  ssl_days_left = some (pos days);
  domain_days_left = none;
  ssl_issuer = none;
  domain_registrar = none;
  manual_registrar = none;
  manual_expiry_date = none;
  last_checked = none;
  notes = none;
}

abbrev rows : List Domain
rows =
    row 1 (codes "shop.example.com") "healthy" 80
    ∷ row 2 (codes "api.example.org") "critical" 3
    ∷ row 3 (codes "example.com") "watch" 25
    ∷ []

abbrev two_per_page : ListState
two_per_page = record {
  cached = rows;
  search = [];
  chip = "all";
  tld = [];
  sort = record { field = "days"; dir = asc };
  pagination = record { page = 2; page_size = 2 };
}

abbrev none_match : ListState
none_match = record two_per_page {
  search = codes "nothing";
  pagination = record { page = 1; page_size = 2 };
}

abbrev chosen : ListState
chosen = record two_per_page { search = codes "example"; chip = "watch"; tld = codes "example.com" }

extract_tlds_example :
    contains (codes "example.com") (extract_tlds rows) ≡ any (has_tld (codes "example.com")) rows
extract_tlds_example = extract_tlds_lem (codes "example.com") rows

apply_domain_filters_example :
    ((apply_domain_filters test_platform ssl_only two_per_page).0
      ≡ with_page (page_in_range test_platform ssl_only two_per_page) two_per_page)
    × ((apply_domain_filters test_platform ssl_only two_per_page).1.rows
        ≡ page_slice
            (page_in_range test_platform ssl_only two_per_page)
            2
            (listed test_platform ssl_only two_per_page))
    × (min 1 (length (get_filtered_domains test_platform ssl_only two_per_page))
        ≤ length (apply_domain_filters test_platform ssl_only two_per_page).1.rows)
    × ((apply_domain_filters test_platform ssl_only two_per_page).2
        ≡ bar_of test_platform ssl_only
            (page_in_range test_platform ssl_only two_per_page)
            two_per_page
            (apply_domain_filters test_platform ssl_only two_per_page).1.rows)
apply_domain_filters_example =
    apply_domain_filters_lem test_platform ssl_only two_per_page (omega arith) (omega arith)

visit_all_example :
    visit test_platform ssl_only (total_pages test_platform ssl_only two_per_page) two_per_page
    ≡ sort_domains test_platform ssl_only two_per_page.sort
        (get_filtered_domains test_platform ssl_only two_per_page)
visit_all_example = visit_all test_platform ssl_only two_per_page (omega arith)

click_sort_example :
    (0 < length (click_sort test_platform ssl_only "url" none_match).1.rows)
    × ((click_sort test_platform ssl_only "url" none_match).1.filtered_count ≡ 3)
    × ((click_sort test_platform ssl_only "url" none_match).2 ≡ none)
unfolding get_filtered_domains by_query by_chip by_tld matches_query
click_sort_example =
    click_sort_ignores_filters test_platform ssl_only "url" none_match refl (omega arith)
      (omega arith) (omega arith)
