-- ===== src/Selection/Toolbar.antt =====
-- The select-all box of a domain list and `updateBulkToolbar`.
use domain_ssl_checker.Platform.{Platform}
use domain_ssl_checker.Domains.{ListType, ListState}
use domain_ssl_checker.Domains.Filter.{get_filtered_domains}
use domain_ssl_checker.Domains.Pages.{get_page_items}
use domain_ssl_checker.Selection.{has, put_all}
use domain_ssl_checker.Selection.Sets.{has-put_all}
use domain_ssl_checker.Base.{
  List, Bool, ℕ, length, Option, ltb, map, ◌≡◌, ◌<◌, filter, ◌&&◌, true, false, ◌==◌, ◌∷◌,
  if◌then◌else◌, none, arith, some, ap, [], suc, refl, String, not, str_eq,
}

-- `ids.filter(id => sel.has(id)).length`
abbrev pub selected_count : List ℕ → List ℕ → ℕ
selected_count ids sel = length (filter (λ id. has id sel) ids)

-- The select-all box and the text of the count.
pub record Toolbar : Type 0 where
  pub checked : Bool
  pub indeterminate : Bool
  -- The toolbar is visible.
  pub open_bar : Bool
  pub size : ℕ
  -- The number in "(… visible)"; `none` where that part is left out.
  pub visible : Option ℕ

-- What `updateBulkToolbar` shows, from the ids of the visible page.
unfoldable pub toolbar_of : List ℕ → List ℕ → Toolbar
toolbar_of visible_ids sel =
    let visible_selected = selected_count visible_ids sel in
    record {
      checked = ltb 0 (length visible_ids) && visible_selected == length visible_ids;
      indeterminate = ltb 0 visible_selected && ltb visible_selected (length visible_ids);
      open_bar = ltb 0 (length sel);
      size = length sel;
      visible = if visible_selected == length sel then none else some visible_selected;
    }

-- `updateBulkToolbar`; `none` where it leaves the toolbar as it is.
unfoldable pub update_bulk_toolbar : String → List ℕ → List ℕ → Option Toolbar
unfolding toolbar_of
update_bulk_toolbar role visible_ids sel =
    if not (str_eq role "admin") then none else some (toolbar_of visible_ids sel)

-- `getPageItems(getFilteredDomains(type), type).map(d => d.id)`
unfoldable pub visible_ids : Platform → ListType → ListState → List ℕ
visible_ids p type s = map (λ d. d.id) (get_page_items s.pagination (get_filtered_domains p type s))

-- The `change` handler of the select-all box, on the ids that it goes through.
unfoldable pub select_all : Bool → List ℕ → List ℕ → List ℕ
select_all checked ids sel = put_all checked ids sel

count_all :
    (ids sel : List ℕ)
    → ((y : ℕ) → has y ids ≡ true → has y sel ≡ true)
    → selected_count ids sel ≡ length ids
count_all [] sel h = refl
count_all (x ∷ ids) sel h =
    rw (h x (ground arith)) (ap suc (count_all ids sel (λ y k. h y (ground arith))))

count_none :
    (ids sel : List ℕ)
    → ((y : ℕ) → has y ids ≡ true → has y sel ≡ false)
    → selected_count ids sel ≡ 0
count_none [] sel h = refl
count_none (x ∷ ids) sel h =
    rw (h x (ground arith)) (count_none ids sel (λ y k. h y (ground arith)))

-- After an admin's click on the select-all box, on a page with a row, the toolbar shows the box as
-- it was set, with no dash, and rows of other pages keep their state.
pub update_bulk_toolbar-select_all :
    (checked : Bool) (ids sel : List ℕ)
    → 0 < length ids
    → (t : Toolbar) × (update_bulk_toolbar "admin" ids (select_all checked ids sel) ≡ some t)
      × (t.checked ≡ checked)
      × (t.indeterminate ≡ false)
      × ((y : ℕ) → has y (select_all checked ids sel) ≡ (if has y ids then checked else has y sel))
unfolding update_bulk_toolbar select_all
update_bulk_toolbar-select_all true ids sel h =
    let e : selected_count ids (put_all true ids sel) ≡ length ids =
      count_all ids (put_all true ids sel) (λ y k. rw (has-put_all, k)) in
    (
      toolbar_of ids (put_all true ids sel),
      refl,
      rw e (ground arith),
      rw e (ground arith),
      λ y. has-put_all y true ids sel,
    )
update_bulk_toolbar-select_all false ids sel h =
    let e : selected_count ids (put_all false ids sel) ≡ 0 =
      count_none ids (put_all false ids sel) (λ y k. rw (has-put_all, k)) in
    (
      toolbar_of ids (put_all false ids sel),
      refl,
      rw e (ground arith),
      rw e (ground arith),
      λ y. has-put_all y false ids sel,
    )
