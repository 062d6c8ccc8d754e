-- ===== src/Modals.antt =====
-- The dialogs: what opens and closes them, and what Escape does to them. An opening adds the class
-- `open`, a closing removes it, and Escape sets the style `display: none` on the element.
pub mod Laws
mod Tests
use domain_ssl_checker.Base.{Bool, true, false, if◌then◌else◌, List, ◌∷◌, ◌&&◌, [], not, ◌||◌}

-- The ids of the dialogs that Escape goes through, in its order.
pub data Modal : Type 0 where
  domain_modal user_modal confirm_modal cert_modal import_modal bulk_notes_modal compare_modal
        bulk_tags_modal :
      Modal

pub record ModalState : Type 0 where
  -- The element has the class `open`.
  pub is_open : Modal → Bool
  -- Its inline style is `display: none`.
  pub no_display : Modal → Bool
  -- `_confirmDeleteTarget` is set.
  pub has_target : Bool

abbrev pub same_modal : Modal → Modal → Bool
same_modal domain_modal domain_modal = true
same_modal user_modal user_modal = true
same_modal confirm_modal confirm_modal = true
same_modal cert_modal cert_modal = true
same_modal import_modal import_modal = true
same_modal bulk_notes_modal bulk_notes_modal = true
same_modal compare_modal compare_modal = true
same_modal bulk_tags_modal bulk_tags_modal = true
same_modal _ _ = false

abbrev pub set_at : Modal → Bool → (Modal → Bool) → Modal → Bool
set_at m b f n = if same_modal n m then b else f n

-- `classList.add('open')`
unfoldable pub open_modal : Modal → ModalState → ModalState
open_modal m s = record s { is_open = set_at m true s.is_open }

unfoldable pub close_modal : Modal → ModalState → ModalState
close_modal m s = record s { is_open = set_at m false s.is_open }

-- `closeConfirmModal`
unfoldable pub close_confirm_modal : ModalState → ModalState
close_confirm_modal s = record s {
  is_open = set_at confirm_modal false s.is_open;
  has_target = false;
}

-- One round of the loop over the ids. `in_page` says which of the elements exist: the one of the bulk
-- notes is made on demand.
unfoldable pub escape_one : (Modal → Bool) → Modal → ModalState → ModalState
escape_one in_page m s =
    if not (in_page m) || s.no_display m
    then s
    else let s' : ModalState = record s { no_display = set_at m true s.no_display } in
      if same_modal m confirm_modal then close_confirm_modal s' else s'

unfoldable pub escape_all : (Modal → Bool) → List Modal → ModalState → ModalState
escape_all in_page [] s = s
escape_all in_page (m ∷ ms) s = escape_all in_page ms (escape_one in_page m s)

abbrev pub escape_order : List Modal
escape_order =
    domain_modal ∷ user_modal ∷ confirm_modal ∷ cert_modal ∷ import_modal ∷ bulk_notes_modal
    ∷ compare_modal ∷ bulk_tags_modal ∷ []

unfoldable pub press_escape : (Modal → Bool) → ModalState → ModalState
press_escape in_page s = escape_all in_page escape_order s

-- The style sheet shows an element that has the class, unless its style hides it.
abbrev pub is_visible : ModalState → Modal → Bool
is_visible s m = s.is_open m && not (s.no_display m)
