-- ===== src/Webapps/Tests.antt =====
-- The theorems on web apps at a list of two.
use Prim.Native.Nat.{compare}
use mathlib.Core.List.{Perm}
use domain_ssl_checker.Platform.{Platform}
use domain_ssl_checker.Base.{ℕ, length, Text, codes, ◌≡◌, ◌∷◌, some, [], none, min, ◌≤◌, arith}
use domain_ssl_checker.Webapps.{WebappState, apply_web_app_filters, Webapp, sorted_webapps}
use domain_ssl_checker.Webapps.Laws.{page_of, apply_web_app_filters_lem}
use domain_ssl_checker.Paging.{page_slice}
use domain_ssl_checker.Domains.{asc}

abbrev app_platform : Platform
app_platform = record {
  lower = λ t. t;
  locale_compare = λ a b. compare (length a) (length b);
  time_of = length;
  midnight_of = length;
  now = 0;
}

abbrev app : ℕ → Text → Text → Webapp
app id name status = record {
  id = id;
  name = name;
  url = codes "https://example.com";
  status = some status;
  response_time_ms = some 120;
  total_checks = 4;
  successful_checks = 3;
  last_checked = none;
}

abbrev two_apps : WebappState
two_apps = record {
  cached = app 1 (codes "shop") (codes "up") ∷ app 2 (codes "blog") (codes "down") ∷ [];
  search = [];
  filter = codes "all";
  key = "name";
  dir = asc;
  page = 9999;
  size = 1;
}

apply_web_app_filters_example :
    ((apply_web_app_filters app_platform two_apps).0.page ≡ page_of app_platform two_apps)
    × ((apply_web_app_filters app_platform two_apps).1.rows
        ≡ page_slice (page_of app_platform two_apps) 1 (sorted_webapps app_platform two_apps))
    × (min 1 (length (sorted_webapps app_platform two_apps))
        ≤ length (apply_web_app_filters app_platform two_apps).1.rows)
    × Perm (apply_web_app_filters app_platform two_apps).0.cached two_apps.cached
apply_web_app_filters_example =
    apply_web_app_filters_lem app_platform two_apps (omega arith) (omega arith)
