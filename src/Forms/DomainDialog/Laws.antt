-- ===== src/Forms/DomainDialog/Laws.antt =====
-- A domain that is edited and saved as it was.
use domain_ssl_checker.Forms.DomainDialog.{DomainEntry, edit_form}
use domain_ssl_checker.Forms.DomainForm.{
  submit_domain, DomainBody, DomainEffect, put_domain, post_domain, reload_view, button_free,
}
use domain_ssl_checker.Forms.Numbers.{num_or, is_blank}
use domain_ssl_checker.Forms.Numbers.Laws.{int_or-num_or, is_blank-show}
use domain_ssl_checker.Digits.{show}
use domain_ssl_checker.Base.{
  List, pos, String, Option, Text, text_or, Bool, some, [], ◌++◌, trim, none, codes, ◌≡◌, ◌∷◌, not,
  false, arith, refl, ap, true,
}

-- The requests of a submission: the id, none for a new domain, and the body.
abbrev pub domain_requests : List DomainEffect → List (Option Text × DomainBody)
domain_requests [] = []
domain_requests (put_domain id b ∷ es) = (some id, b) ∷ domain_requests es
domain_requests (post_domain b ∷ es) = (none, b) ∷ domain_requests es
domain_requests (e ∷ es) = domain_requests es

-- The entries of the domain that the form shows; an interval that is null or 0 stands as 360.
abbrev pub entry_body : DomainEntry → DomainBody
entry_body d = record {
  url = d.url;
  check_interval = pos (num_or d.check_interval 360);
  notes = text_or d.notes [];
  type = text_or d.type (codes "full");
  manual_expiry_date = text_or d.manual_expiry_date [];
  manual_registrar = text_or d.manual_registrar [];
  ct_monitoring = some (not d.ct_is_false);
}

no_requests : (view : String) → domain_requests (reload_view view ++ button_free ∷ []) ≡ []
no_requests view = ground arith

-- A type is never blank.
type_full : (o : Option Text) → is_blank (text_or o (codes "full")) ≡ false
type_full none = refl
type_full (some []) = refl
type_full (some (c ∷ cs)) = refl

-- A domain whose url, notes and registrar have no white space at their ends, opened for an edit and
-- saved as it is, is sent once, under its id, and with what it had.
pub submit_domain-edit :
    (view : String) (ok : Bool) (d : DomainEntry)
    → trim d.url ≡ d.url
    → trim (text_or d.notes []) ≡ text_or d.notes []
    → trim (text_or d.manual_registrar []) ≡ text_or d.manual_registrar []
    → domain_requests (submit_domain view ok (edit_form d)) ≡ (some (show d.id), entry_body d) ∷ []
unfolding submit_domain edit_form
submit_domain-edit view true d u n r =
    rw
      (
        is_blank-show d.id,
        u,
        n,
        r,
        int_or-num_or d.check_interval 360 (omega arith),
        type_full d.type,
      )
      (ap ((some (show d.id), entry_body d) ∷◌) (no_requests view))
submit_domain-edit view false d u n r =
    rw
      (
        is_blank-show d.id,
        u,
        n,
        r,
        int_or-num_or d.check_interval 360 (omega arith),
        type_full d.type,
      )
      refl
