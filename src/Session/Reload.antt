-- ===== src/Session/Reload.antt =====
-- The filters that are applied come back when the page is loaded again.
use domain_ssl_checker.Session.Laws.{kept, load-save_view_prefs, IsJson, kept}
use domain_ssl_checker.Session.{
  Json, apply_and_save, View, Items, Prefs, save_view_prefs, load_view_prefs,
}
use domain_ssl_checker.Platform.{Platform}
use domain_ssl_checker.Domains.{ListType}
use domain_ssl_checker.Base.{◌≡◌, true, str_eq, ap, false, ◌<◌, some, ◌∙◌}
use domain_ssl_checker.Domains.Pages.{with_page}
use domain_ssl_checker.Domains.Pages.Laws.{page_in_range, apply_domain_filters-page}

module _ {Raw : Type 0} (j : Json Raw) (json : IsJson j) (p : Platform) (type : ListType) where
  apply_and_save-view :
      (v : View) (prefs : Items Raw)
      → (apply_and_save j p type v prefs).0
        ≡ record v { list = with_page (page_in_range p type v.list) v.list }
  unfolding apply_and_save
  apply_and_save-view v prefs =
      ap (λ list. record v { list = list }) (apply_domain_filters-page p type v.list)

  apply_and_save-stored :
      (v : View) (prefs : Items Raw)
      → (apply_and_save j p type v prefs).1
        ≡ save_view_prefs j type
            (record v { list = with_page (page_in_range p type v.list) v.list })
            prefs
  unfolding apply_and_save
  apply_and_save-stored v prefs =
      ap (λ list. save_view_prefs j type (record v { list = list }) prefs)
        (apply_domain_filters-page p type v.list)

  -- If the browser reads the JSON that it wrote and stores every text, and the mode and the chip
  -- are not empty and the page size not 0, `applyDomainFilters` changes the page alone, and the
  -- stored text gives any later view the mode, grouping, columns, sort, chip, TLD and page size
  -- that were applied.
  pub load-apply_and_save :
      (v later : View) (prefs : Items Raw)
      → ((q : Prefs) → j.accepts (j.stringify_prefs q) ≡ true)
      → str_eq v.view_mode "" ≡ false
      → str_eq v.list.chip "" ≡ false
      → 0 < v.list.pagination.page_size
      → (prefs' : Items Raw) × ((apply_and_save j p type v prefs).1 ≡ some prefs')
        × ((apply_and_save j p type v prefs).0
            ≡ record v { list = with_page (page_in_range p type v.list) v.list })
        × (load_view_prefs j type prefs' later ≡ kept v later)
  load-apply_and_save v later prefs ok mode chip size =
      let v' : View = record v { list = with_page (page_in_range p type v.list) v.list } in
      let (prefs', saved, loaded, other) =
        load-save_view_prefs j json type v' later prefs (ok _) mode chip size in
      (prefs', apply_and_save-stored v prefs ∙ saved, apply_and_save-view v prefs, loaded)
