-- ===== src/Modals/Tests.antt =====
-- The theorem on Escape, at a dialog that is opened, dismissed by Escape, and opened again.
use domain_ssl_checker.Modals.{
  domain_modal, bulk_notes_modal, ModalState, Modal, open_modal, press_escape, same_modal,
}
use domain_ssl_checker.Base.{false, Bool, not}

abbrev all_closed : ModalState
all_closed = record { is_open = λ m. false; no_display = λ m. false; has_target = false }

abbrev in_test_page : Modal → Bool
in_test_page m = not (same_modal m bulk_notes_modal)

abbrev opened_again : ModalState
opened_again =
    open_modal domain_modal (press_escape in_test_page (open_modal domain_modal all_closed))
