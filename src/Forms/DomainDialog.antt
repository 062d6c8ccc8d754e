-- ===== src/Forms/DomainDialog.antt =====
-- The dialog of a domain: `openAddModal` and `openEditModal`.
pub mod Laws
use domain_ssl_checker.Domains.{ListType, full, ssl_only}
use domain_ssl_checker.Digits.{show}
use domain_ssl_checker.Forms.DomainForm.{DomainForm}
use domain_ssl_checker.Forms.Numbers.{num_or}
use domain_ssl_checker.Base.{
  ℕ, Text, Option, String, text_or, List, Bool, codes, [], if◌then◌else◌, find?, true, str_eq, not,
  ◌==◌, some, none,
}

-- What the dialog reads of a row of `/api/domains`; the flag says that its entry is `false`.
pub record DomainEntry : Type 0 where
  pub id : ℕ
  pub url : Text
  pub type : Option Text
  pub check_interval : Option ℕ
  pub notes : Option Text
  pub manual_expiry_date : Option Text
  pub manual_registrar : Option Text
  pub ct_is_false : Bool

abbrev pub type_text : ListType → Text
type_text full = codes "full"
type_text ssl_only = codes "ssl_only"

-- `openAddModal`; the hidden inputs keep their values when the form is reset.
unfoldable pub open_add_modal : ListType → Option Text → DomainForm
open_add_modal type prefill = record {
  id = [];
  url = text_or prefill [];
  interval = codes "360";
  notes = [];
  type = type_text type;
  manual_expiry = [];
  manual_registrar = [];
  ct_enabled = true;
}

-- The type of the rows that are asked for; `none` asks for all.
unfoldable pub edit_query : String → Option ListType
edit_query view =
    if str_eq view "sslcerts"
    then some ssl_only
    else if str_eq view "domains"
    then some full
    else none

unfoldable pub edit_form : DomainEntry → DomainForm
edit_form d = record {
  id = show d.id;
  url = d.url;
  interval = show (num_or d.check_interval 360);
  notes = text_or d.notes [];
  type = text_or d.type (codes "full");
  manual_expiry = text_or d.manual_expiry_date [];
  manual_registrar = text_or d.manual_registrar [];
  ct_enabled = not d.ct_is_false;
}

-- `openEditModal`, with the rows of the answer; `none` is the toast "Domain not found".
unfoldable pub open_edit_modal : List DomainEntry → ℕ → Option DomainForm
open_edit_modal rows id = elim (find? (λ d. d.id == id) rows) [
  | none ↦ none
  | some d ↦ some (edit_form d)
]
