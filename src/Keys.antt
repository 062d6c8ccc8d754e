-- ===== src/Keys.antt =====
-- The keyboard on the two lists and on the settings' tabs.
pub mod Laws
use domain_ssl_checker.Platform.{Platform}
use domain_ssl_checker.Domains.{ListType, full, ssl_only, ListState}
use domain_ssl_checker.Domains.Pages.{apply_domain_filters}
use domain_ssl_checker.Selection.{has, add, delete}
use domain_ssl_checker.Selection.Toolbar.{visible_ids}
use domain_ssl_checker.Base.{
  String, List, Option, ℕ, Bool, none, some, if◌then◌else◌, ◌∷◌, [], ◌||◌, suc, ◌-◌, get_elem?,
  str_eq, ◌+◌, min, ◌&&◌, ◌%◌, zero, not, length,
}

pub record KeyPress : Type 0 where
  pub key : String
  pub ctrl : Bool
  pub meta : Bool

pub record KeyState : Type 0 where
  pub list : ListState
  pub selected : List ℕ
  -- `_keyboardFocusIndex`; `none` is -1.
  pub focus : Option ℕ

pub data KeyEffect : Type 0 where
  -- The search box gets the focus.
  search_focused : KeyEffect
  -- `highlightKeyboardFocus`: the id of the card, if the index is that of one.
  highlighted : Option ℕ → KeyEffect
  -- `applyDomainFilters`
  list_filtered : KeyEffect
  -- `bulkAction(type, 'check')` with these ids, or its refusal
  bulk_checked : List ℕ → KeyEffect
  bulk_refused : KeyEffect

-- `Math.min(focus + 1, n - 1)` and `Math.max(focus - 1, 0)`
abbrev pub focus_next : ℕ → Option ℕ → Option ℕ
focus_next zero f = none
focus_next (suc n) none = some 0
focus_next (suc n) (some f) = some (min (f + 1) n)

abbrev pub focus_prev : Option ℕ → Option ℕ
focus_prev none = some 0
focus_prev (some f) = some (f - 1)

-- `items[focus]`, where the index is in range
abbrev pub at_focus : Option ℕ → List ℕ → Option ℕ
at_focus none ids = none
at_focus (some f) ids = get_elem? ids f

abbrev pub toggled : ℕ → List ℕ → List ℕ
toggled id sel = if has id sel then delete id sel else add id sel

abbrev pub add_all : List ℕ → List ℕ → List ℕ
add_all [] sel = sel
add_all (id ∷ ids) sel = add_all ids (add id sel)

module _ (p : Platform) (role : String) (type : ListType) where
  -- `applyDomainFilters(type)`, which also takes the focus away.
  abbrev pub filtered_again : KeyState → KeyState × List KeyEffect
  filtered_again s =
      (record s { list = (apply_domain_filters p type s.list).0; focus = none }, list_filtered ∷ [])

  abbrev pub toggle_focused : Option ℕ → KeyState → KeyState × List KeyEffect
  toggle_focused none s = (s, [])
  toggle_focused (some id) s = filtered_again (record s { selected = toggled id s.selected })

  abbrev pub check_selected : List ℕ → KeyState → KeyState × List KeyEffect
  check_selected [] s = (s, [])
  check_selected (id ∷ ids) s =
      if str_eq role "admin"
      then (record s { selected = [] }, bulk_checked (id ∷ ids) ∷ [])
      else (s, bulk_refused ∷ [])

  -- A key outside of inputs, on the view of the list.
  unfoldable pub on_list_key : KeyPress → KeyState → KeyState × List KeyEffect
  on_list_key k s =
      let ids = visible_ids p type s.list in
      let ctrl = k.ctrl || k.meta in
      if str_eq k.key "/" || str_eq k.key "f" && not ctrl
      then (s, search_focused ∷ [])
      else if str_eq k.key "j" || str_eq k.key "ArrowDown"
      then (
        record s { focus = focus_next (length ids) s.focus },
        highlighted (at_focus (focus_next (length ids) s.focus) ids) ∷ [],
      )
      else if str_eq k.key "k" || str_eq k.key "ArrowUp"
      then (
        record s { focus = focus_prev s.focus },
        highlighted (at_focus (focus_prev s.focus) ids) ∷ [],
      )
      else if str_eq k.key "x"
      then toggle_focused (at_focus s.focus ids) s
      else if str_eq k.key "a" && ctrl
      then filtered_again (record s { selected = add_all ids s.selected })
      else if str_eq k.key "c"
      then check_selected s.selected s
      else (s, [])

-- The guard: no input has the focus, and the view is one of the two lists.
unfoldable pub on_key :
    Platform → String → String → Bool → KeyPress → KeyState → KeyState × List KeyEffect
on_key p role view in_input k s =
    if in_input
    then (s, [])
    else if str_eq view "sslcerts"
    then on_list_key p role ssl_only k s
    else if str_eq view "domains"
    then on_list_key p role full k s
    else (s, [])

-- The tab that an arrow key selects in the settings, of `n` tabs; `right` is the right arrow.
unfoldable pub next_tab : Bool → ℕ → ℕ → ℕ
next_tab right n current = if right then (current + 1) % n else (current + n - 1) % n
