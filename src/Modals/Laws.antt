-- ===== src/Modals/Laws.antt =====
-- After Escape no dialog is visible again.
use domain_ssl_checker.Modals.{ModalState, press_escape, open_modal, Modal, close_modal}
use domain_ssl_checker.Base.{Bool}

-- Openings, closings and Escape, in any order.
pub data Uses (s : ModalState) : ModalState → Type 0 where
  unused : Uses s s
  opened : (m : Modal) (t : ModalState) → Uses s t → Uses s (open_modal m t)
  closed : (m : Modal) (t : ModalState) → Uses s t → Uses s (close_modal m t)
  escaped : (in_page : Modal → Bool) (t : ModalState) → Uses s t → Uses s (press_escape in_page t)
