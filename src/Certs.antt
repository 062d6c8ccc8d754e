-- ===== src/Certs.antt =====
-- The details of a certificate: `openCertModal` and `closeCertModal` with the button that checks again.
-- View has what the answer of the server shows, Pairs its numbers in pairs of digits.
pub mod Pairs
pub mod View
pub mod Laws
mod Tests
use domain_ssl_checker.Certs.View.{CertAnswer, CertShown, cert_view}
use domain_ssl_checker.Base.{
  ℕ, Text, Option, Bool, List, true, false, some, none, [], ◌∷◌, ◌==◌, if◌then◌else◌,
}

pub data CertBody : Type 0 where
  loading load_failed : CertBody
  details : CertShown → CertBody

pub record CertState : Type 0 where
  -- `_lastCertId`
  pub last_id : Option ℕ
  pub is_open : Bool
  -- `cert-status-bar` and `cert-modal-footer`
  pub bar_shown : Bool
  pub footer_shown : Bool
  -- `cert-check-now-btn`
  pub can_check : Bool
  -- `_certKeyHandler` is set.
  pub escape_closes : Bool
  pub body : CertBody
  -- The requests `GET /api/domains/id/cert` without an answer
  pub waiting : List ℕ

unfoldable pub open_cert_modal : ℕ → CertState → CertState
open_cert_modal id s = record {
  last_id = some id;
  is_open = true;
  bar_shown = false;
  footer_shown = false;
  can_check = true;
  escape_closes = true;
  body = loading;
  waiting = id ∷ s.waiting;
}

unfoldable pub close_cert_modal : CertState → CertState
close_cert_modal s = record s {
  is_open = false;
  bar_shown = false;
  footer_shown = false;
  escape_closes = false;
}

-- Takes the first of the requests for `id` away.
abbrev pub without_request : ℕ → List ℕ → List ℕ
without_request id [] = []
without_request id (x ∷ xs) = if x == id then xs else x ∷ without_request id xs

-- `cert-check-now`: the row that `manualCheck` is called with, and the button until its timer ends.
unfoldable pub check_now : CertState → Option ℕ × CertState
check_now s = (s.last_id, record s { can_check = false })

unfoldable pub timer_ends : CertState → CertState
timer_ends s = record s { can_check = true }

module _ (lower upper : Text → Text) (parse : Text → Option (List Text)) where
  -- What is shown before the handler fails stays: the bar is shown before the texts are built.
  abbrev pub show_cert : Option CertShown → CertState → CertState
  show_cert none s = record s { bar_shown = true; body = load_failed }
  show_cert (some v) s = record s { bar_shown = true; footer_shown = true; body = details v }

  -- The answer to the request for `id`, `none` where it failed.
  unfoldable pub receive_cert : ℕ → Option CertAnswer → CertState → CertState
  receive_cert id none s = record s { body = load_failed; waiting = without_request id s.waiting }
  receive_cert id (some d) s =
      show_cert (cert_view lower upper parse d)
        (record s { waiting = without_request id s.waiting })
