-- ===== src/Session/Laws.antt =====
-- Round trips through the browser's storage, and what a load shows.
use domain_ssl_checker.Session.{
  Json, View, get_cached_domains, Prefs, with_prefs, save_view_prefs, set_cached_domains,
  clear_domains_cache, Items, prefs_of, load_view_prefs, load_domains, get_item, show_loaded, Entry,
  put_item, parse_found, load_from,
}
use domain_ssl_checker.Domains.{ListType, ssl_only, full, Domain, ListState}
use domain_ssl_checker.Base.{
  Option, ◌≡◌, List, ℕ, some, str_eq, true, false, if◌then◌else◌, none, refl, ◌<◌, ltb, ◌+◌, length,
  ◌==◌, Option-cases, arith, inl, ◌∙◌, inr, ap,
}
use domain_ssl_checker.Platform.{Platform}
use domain_ssl_checker.Domains.Pages.{Shown, PageBar, render_domains, render_pagination}
use domain_ssl_checker.Domains.Sort.{sort_domains}
use domain_ssl_checker.Sorting.Laws.{length-sort_by}

-- What `JSON.parse` gives for the text of `JSON.stringify`.
pub record IsJson {Raw : Type 0} (j : Json Raw) : Type 0 where
  pub parse-stringify_prefs : (q : Prefs) → j.parse_prefs (j.stringify_prefs q) ≡ some q
  pub parse-stringify_entry : (e : Entry) → j.parse_entry (j.stringify_entry e) ≡ some e

abbrev pub other : ListType → ListType
other full = ssl_only
other ssl_only = full

get_item-put_item :
    {Raw : Type 0} (type : ListType) (o : Option Raw) (items : Items Raw)
    → get_item type (put_item type o items) ≡ o
get_item-put_item full o items = refl
get_item-put_item ssl_only o items = refl

get_item-put_other :
    {Raw : Type 0} (type : ListType) (o : Option Raw) (items : Items Raw)
    → get_item (other type) (put_item type o items) ≡ get_item (other type) items
get_item-put_other full o items = refl
get_item-put_other ssl_only o items = refl

-- What the two lists show of a view: all but the rows, the search and the page.
abbrev pub kept : View → View → View
kept saved now' = record saved {
  list = record now'.list {
    sort = saved.list.sort;
    chip = saved.list.chip;
    tld = saved.list.tld;
    pagination = record now'.list.pagination { page_size = saved.list.pagination.page_size };
  };
}

with_prefs_lem :
    (saved later : View)
    → str_eq saved.view_mode "" ≡ false
    → str_eq saved.list.chip "" ≡ false
    → 0 < saved.list.pagination.page_size
    → with_prefs (prefs_of saved) later ≡ kept saved later
unfolding with_prefs prefs_of
with_prefs_lem saved later mode chip size =
    let some_size : (saved.list.pagination.page_size == 0) ≡ false = ground arith in
    rw (mode, chip, some_size) refl

module _ {Raw : Type 0} (j : Json Raw) (json : IsJson j) where
  -- If the browser reads the JSON that it wrote and stores the text, and the mode and the chip are
  -- not empty and the page size not 0, loading gives any later view the saved mode, grouping,
  -- columns, sort, chip, TLD and page size, and leaves its rows, search and page; the preferences
  -- of the other list are as before.
  pub load-save_view_prefs :
      (type : ListType) (saved later : View) (items : Items Raw)
      → j.accepts (j.stringify_prefs (prefs_of saved)) ≡ true
      → str_eq saved.view_mode "" ≡ false
      → str_eq saved.list.chip "" ≡ false
      → 0 < saved.list.pagination.page_size
      → (items' : Items Raw) × (save_view_prefs j type saved items ≡ some items')
        × (load_view_prefs j type items' later ≡ kept saved later)
        × (get_item (other type) items' ≡ get_item (other type) items)
  unfolding save_view_prefs load_view_prefs
  load-save_view_prefs type saved later items ok mode chip size = (
    put_item type (some (j.stringify_prefs (prefs_of saved))) items,
    rw ok refl,
    rw (get_item-put_item, json.parse-stringify_prefs) (with_prefs_lem saved later mode chip size),
    get_item-put_other type _ items,
  )

  -- If the browser reads the JSON that it wrote and stores the text, what the cache holds is given
  -- back for less than a minute, and the other list's rows are not touched by storing it.
  pub get-set_cached_domains :
      (type : ListType) (ds : List Domain) (items : Items Raw) (then' now : ℕ)
      → j.accepts (j.stringify_entry (record { rows = ds; ts = then' })) ≡ true
      → (get_cached_domains j now type (set_cached_domains j then' type ds items)
          ≡ (if ltb now (then' + 60000) then some ds else none))
        × (get_cached_domains j now (other type) (set_cached_domains j then' type ds items)
            ≡ get_cached_domains j now (other type) items)
  unfolding get_cached_domains set_cached_domains
  get-set_cached_domains type ds items then' now ok = (
    rw (ok, get_item-put_item, json.parse-stringify_entry) refl,
    rw (ok, get_item-put_other) refl,
  )

-- Clearing the cache for a list empties it for both lists. Cleared for no list, as after a quick
-- add, the rows of `ssl_only` stay in it.
pub clear_domains_cache_lem :
    {Raw : Type 0} (j : Json Raw) (now : ℕ) (type type' : ListType) (items : Items Raw)
    → (get_cached_domains j now type' (clear_domains_cache j (some type) items) ≡ none)
      × (get_cached_domains j now full (clear_domains_cache j none items) ≡ none)
      × (get_cached_domains j now ssl_only (clear_domains_cache j none items)
          ≡ get_cached_domains j now ssl_only items)
unfolding get_cached_domains clear_domains_cache
clear_domains_cache_lem j now full full items = (refl, refl, refl)
clear_domains_cache_lem j now full ssl_only items = (refl, refl, refl)
clear_domains_cache_lem j now ssl_only full items = (refl, refl, refl)
clear_domains_cache_lem j now ssl_only ssl_only items = (refl, refl, refl)

module _ {Raw : Type 0} (j : Json Raw) (p : Platform) (type : ListType) where
  load_view_prefs-cached :
      (prefs : Items Raw) (v : View) → (load_view_prefs j type prefs v).list.cached ≡ v.list.cached
  unfolding load_view_prefs with_prefs
  load_view_prefs-cached prefs v =
      elim (Option-cases (parse_found j j.parse_prefs (get_item type prefs))) [
        | inl lost ↦ rw lost refl
        | inr (q, found) ↦ rw found refl
      ]

  render_domains_lem :
      (ds : List Domain) (s : ListState)
      → ((render_domains p type ds s).0.cached ≡ s.cached)
        × ((render_domains p type ds s).1.filtered_count ≡ length ds)
  unfolding render_domains sort_domains
  render_domains_lem ds s = (refl, length-sort_by _ ds)

  load_domains-cached :
      (ds : List Domain) (response : Option (List Domain)) (prefs items : Items Raw) (v : View)
      → get_cached_domains j p.now type items ≡ some ds
      → load_domains j p type false response prefs items v ≡ show_loaded j p type ds prefs items v
  unfolding load_domains
  load_domains-cached ds response prefs items v h =
      ap (λ o. load_from j p type o response prefs items v) h

  -- Where the cache has rows, a load that is not forced counts all of them as those that the
  -- filters leave, whatever filters the preferences bring back; it keeps them as the list, and
  -- does not use the server's answer.
  pub load_domains_shows_all :
      (ds : List Domain) (response : Option (List Domain)) (prefs items : Items Raw) (v : View)
      → get_cached_domains j p.now type items ≡ some ds
      → (v' : View) × (shown : Shown) × (bar : Option PageBar) × (load_domains j p type false
            response prefs items v
          ≡ (v', items, some (shown, bar)))
        × (v'.list.cached ≡ ds)
        × (shown.filtered_count ≡ length ds)
  unfolding show_loaded
  load_domains_shows_all ds response prefs items v h =
      let v' = load_view_prefs j type prefs (record v { list = record v.list { cached = ds } }) in
      let rendered = render_domains p type ds v'.list in
      let (same, count) = render_domains_lem ds v'.list in
      (
        record v' { list = rendered.0 },
        rendered.1,
        render_pagination p type rendered.0,
        load_domains-cached ds response prefs items v h,
        same ∙ load_view_prefs-cached prefs _,
        count,
      )
