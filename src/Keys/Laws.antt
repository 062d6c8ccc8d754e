-- ===== src/Keys/Laws.antt =====
-- What a key changes in the selection.
use domain_ssl_checker.Selection.Sets.{has-add, has-delete}
use domain_ssl_checker.Base.{
  ℕ, List, Option, String, Bool, false, some, true, ◌≡◌, ◌==◌, if◌then◌else◌, ◌||◌, none, not, ◌∷◌,
  ◌∙◌, [], arith, refl, ap, Bool-cases, inl, inr,
}
use domain_ssl_checker.Platform.{Platform}
use domain_ssl_checker.Keys.{
  toggled, add_all, on_list_key, KeyState, at_focus, bulk_checked, toggle_focused,
}
use domain_ssl_checker.Selection.{has, add}
use domain_ssl_checker.Domains.{ListType}
use domain_ssl_checker.Selection.Toolbar.{visible_ids}

has_same : (y id : ℕ) (sel : List ℕ) → id ≡ y → has id sel ≡ has y sel
has_same y id sel e = ap (λ x. has x sel) e

has-toggled :
    (y id : ℕ) (sel : List ℕ)
    → has y (toggled id sel) ≡ (if id == y then not (has y sel) else has y sel)
has-toggled y id sel = elim (Bool-cases (has id sel)) [
  | inl old ↦ rw (old, has-delete y id sel) (ground (arith, has_same y id sel))
  | inr new ↦ rw (new, has-add y id sel) (ground (arith, has_same y id sel))
]

has-add_all : (y : ℕ) (ids sel : List ℕ) → has y (add_all ids sel) ≡ (has y ids || has y sel)
has-add_all y [] sel = refl
has-add_all y (id ∷ ids) sel = has-add_all y ids (add id sel) ∙ rw has-add (ground arith)

-- The row `y` is the one at the focus.
abbrev pub is_focused : ℕ → Option ℕ → Bool
is_focused y none = false
is_focused y (some id) = id == y

module _ (p : Platform) (role : String) (type : ListType) where
  has-toggle_focused :
      (y : ℕ) (o : Option ℕ) (s : KeyState)
      → has y (toggle_focused p role type o s).0.selected
        ≡ (if is_focused y o then not (has y s.selected) else has y s.selected)
  has-toggle_focused y none s = refl
  has-toggle_focused y (some id) s = has-toggled y id s.selected

  -- What `x`, Ctrl+A and `c` do to the selection of a row, whatever key is held with them: `x` flips
  -- the row at the focus and no other, Ctrl+A adds the rows of the page, and an admin's `c`, with
  -- Ctrl for a copy as well, takes all selected rows for a check and leaves none selected.
  pub on_list_key_lem :
      (s : KeyState) (ctrl meta : Bool) (y id : ℕ) (ids : List ℕ)
      → (has y
            (on_list_key p role type (record { key = "x"; ctrl = ctrl; meta = meta }) s).0.selected
          ≡ (if is_focused y (at_focus s.focus (visible_ids p type s.list))
              then not (has y s.selected)
              else has y s.selected))
        × (has y
              (on_list_key p role type
                (record { key = "a"; ctrl = true; meta = meta })
                s).0.selected
            ≡ (has y (visible_ids p type s.list) || has y s.selected))
        × (on_list_key p "admin" type
              (record { key = "c"; ctrl = ctrl; meta = meta })
              (record s { selected = id ∷ ids })
            ≡ (record s { selected = [] }, bulk_checked (id ∷ ids) ∷ []))
  unfolding on_list_key
  on_list_key_lem s ctrl meta y id ids = (
    has-toggle_focused y (at_focus s.focus (visible_ids p type s.list)) s,
    has-add_all y _ s.selected,
    refl,
  )
