-- ===== src/Views/Tests.antt =====
-- The theorem on the navigation, at a viewer who asks for the logs in two ways.
use domain_ssl_checker.Views.Laws.{opened, addressed, chose, start, is_admin_load, Visits-IsViewer}
use domain_ssl_checker.Views.{
  Page, is_restricted, first_page, activate_view, hash_change, choose_auto_refresh,
}
use domain_ssl_checker.Base.{◌≡◌, false, any, refl}

abbrev viewer_page : Page
viewer_page = record first_page { role = "viewer" }

abbrev visited_page : Page
visited_page = activate_view "logs" (hash_change "settings" (choose_auto_refresh 30 viewer_page))

Visits-IsViewer_example :
    (is_restricted visited_page.view ≡ false) × (any is_admin_load visited_page.loads ≡ false)
Visits-IsViewer_example =
    Visits-IsViewer viewer_page visited_page refl refl refl
      (opened "logs" _ (addressed "settings" _ (chose 30 _ start)))
