-- ===== src/Session.antt =====
-- What static/app.js keeps in the browser's storage: the preferences of the two lists in
-- localStorage (`saveViewPrefs`, `loadViewPrefs`), the lists themselves in sessionStorage
-- (`getCachedDomains`, `setCachedDomains`, `clearDomainsCache`), and `loadDomains` above both.
pub mod Laws
pub mod Reload
mod Tests
use domain_ssl_checker.Platform.{Platform}
use domain_ssl_checker.Domains.{ListType, full, ssl_only, Domain, ListState, SortState, Pagination}
use domain_ssl_checker.Domains.Pages.{
  Shown, PageBar, render_domains, render_pagination, apply_domain_filters,
}
use domain_ssl_checker.Base.{
  List, String, Option, some, [], ℕ, Bool, Text, if◌then◌else◌, none, str_eq, ◌==◌, ltb, ◌+◌,
}

-- `_visibleCols[type]`
abbrev pub Cols : Type 0
Cols = List (String × Bool)

-- The slots `[type]` that the preferences hold, with the rest of the list's state.
pub record View : Type 0 where
  pub view_mode : String
  pub group_by : Bool
  pub cols : Cols
  pub list : ListState

-- The stored preferences. A property that the object lacks is `none`.
pub record Prefs : Type 0 where
  pub view_mode : Option String
  pub sort : Option SortState
  pub chip : Option String
  pub tld : Option Text
  pub group_by : Bool
  pub page_size : Option ℕ
  pub cols : Option Cols

-- `{ data, ts }`, with the data as `rows`
pub record Entry : Type 0 where
  pub rows : List Domain
  pub ts : ℕ

-- The browser's JSON and quota. `none` is an exception of `JSON.parse`.
pub record Json (Raw : Type 0) : Type 0 where
  pub stringify_prefs : Prefs → Raw
  pub parse_prefs : Raw → Option Prefs
  pub stringify_entry : Entry → Raw
  pub parse_entry : Raw → Option Entry
  -- `setItem` does not throw.
  pub accepts : Raw → Bool

-- The items of the two types under one prefix, `vigil-prefs-` or `vigil-domains-`.
pub record Items (Raw : Type 0) : Type 0 where
  pub of_full : Option Raw
  pub of_ssl_only : Option Raw

abbrev pub get_item : {Raw : Type 0} → ListType → Items Raw → Option Raw
get_item full items = items.of_full
get_item ssl_only items = items.of_ssl_only

abbrev pub put_item : {Raw : Type 0} → ListType → Option Raw → Items Raw → Items Raw
put_item full o items = record items { of_full = o }
put_item ssl_only o items = record items { of_ssl_only = o }

-- `o || d` for a text, a number and a list of rows
abbrev pub or_word : Option String → String → String
or_word none d = d
or_word (some s) d = if str_eq s "" then d else s

abbrev pub or_number : Option ℕ → ℕ → ℕ
or_number none d = d
or_number (some n) d = if n == 0 then d else n

abbrev pub or_else {ℓ} : {A : Type ℓ} → Option A → A → A
or_else none d = d
or_else (some a) d = a

unfoldable pub prefs_of : View → Prefs
prefs_of v = record {
  view_mode = some v.view_mode;
  sort = some v.list.sort;
  chip = some v.list.chip;
  tld = some v.list.tld;
  group_by = v.group_by;
  page_size = some v.list.pagination.page_size;
  cols = some v.cols;
}

unfoldable pub with_prefs : Prefs → View → View
with_prefs p v = record {
  view_mode = or_word p.view_mode "cards";
  group_by = p.group_by;
  cols = or_else p.cols [];
  list = record v.list {
    sort = or_else p.sort v.list.sort;
    chip = or_word p.chip "all";
    tld = or_else p.tld [];
    pagination = record v.list.pagination { page_size = or_number p.page_size 25 };
  };
}

module _ {Raw : Type 0} (j : Json Raw) where
  -- The value `none` is the exception that `setItem` throws.
  unfoldable pub save_view_prefs : ListType → View → Items Raw → Option (Items Raw)
  save_view_prefs type v items =
      let raw = j.stringify_prefs (prefs_of v) in
      if j.accepts raw then some (put_item type (some raw) items) else none

  abbrev pub parse_found : {A : Type 0} → (Raw → Option A) → Option Raw → Option A
  parse_found parse none = none
  parse_found parse (some raw) = parse raw

  abbrev apply_prefs : Option Prefs → View → View
  apply_prefs none v = v
  apply_prefs (some p) v = with_prefs p v

  unfoldable pub load_view_prefs : ListType → Items Raw → View → View
  load_view_prefs type items v = apply_prefs (parse_found j.parse_prefs (get_item type items)) v

  abbrev fresh : ℕ → Option Entry → Option (List Domain)
  fresh now none = none
  fresh now (some e) = if ltb now (e.ts + 60000) then some e.rows else none

  unfoldable pub get_cached_domains : ℕ → ListType → Items Raw → Option (List Domain)
  get_cached_domains now type items = fresh now (parse_found j.parse_entry (get_item type items))

  unfoldable pub set_cached_domains : ℕ → ListType → List Domain → Items Raw → Items Raw
  set_cached_domains now type ds items =
      let raw = j.stringify_entry (record { rows = ds; ts = now }) in
      if j.accepts raw then put_item type (some raw) items else items

  -- Without an argument, `other` is `full`.
  unfoldable pub clear_domains_cache : Option ListType → Items Raw → Items Raw
  clear_domains_cache (some full) items = put_item ssl_only none (put_item full none items)
  clear_domains_cache (some ssl_only) items = put_item full none (put_item ssl_only none items)
  clear_domains_cache none items = put_item full none items

  -- The rows and the bar that a load shows; `none` is the error toast over an empty list.
  abbrev pub Loaded : Type 0
  Loaded = View × Items Raw × Option (Shown × Option PageBar)

  module _ (p : Platform) (type : ListType) where
    -- `_cachedDomains[type] = ds`, the preferences, `renderDomains` and `renderPagination`.
    unfoldable pub show_loaded : List Domain → Items Raw → Items Raw → View → Loaded
    show_loaded ds prefs items v =
        let v' = load_view_prefs type prefs (record v { list = record v.list { cached = ds } }) in
        let (list', shown) = render_domains p type ds v'.list in
        (record v' { list = list' }, items, some (shown, render_pagination p type list'))

    abbrev fetched : Option (List Domain) → Items Raw → Items Raw → View → Loaded
    fetched none prefs items v = (v, items, none)
    fetched (some ds) prefs items v =
        show_loaded ds prefs (set_cached_domains p.now type ds items) v

    -- The rows of the cache, if there are any, and else the answer.
    abbrev pub load_from :
        Option (List Domain) → Option (List Domain) → Items Raw → Items Raw → View → Loaded
    load_from none response prefs items v = fetched response prefs items v
    load_from (some ds) response prefs items v = show_loaded ds prefs items v

    -- `response` is the answer of `/api/domains`, `none` an error; it is not asked for where the
    -- cache has the rows.
    unfoldable pub load_domains :
        Bool → Option (List Domain) → Items Raw → Items Raw → View → Loaded
    load_domains force response prefs items v =
        load_from (if force then none else get_cached_domains p.now type items) response prefs items
          v

    -- `applyDomainFilters`, with its last line; `none` is the exception of `setItem`.
    unfoldable pub apply_and_save :
        View → Items Raw → View × Option (Items Raw) × Shown × Option PageBar
    apply_and_save v prefs =
        let (list', shown, bar) = apply_domain_filters p type v.list in
        let v' = record v { list = list' } in (v', save_view_prefs type v' prefs, shown, bar)
