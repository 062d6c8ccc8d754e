-- ===== src/Forms/DomainForm.antt =====
-- The forms of a domain: `domain-form` and `quickadd-form`.
use domain_ssl_checker.Domains.{ListType, full, ssl_only}
use domain_ssl_checker.Base.{
  Text, Option, String, Bool, ℤ, trim, List, if◌then◌else◌, str_eq, text_eq, ◌∷◌, codes, [], none,
  ◌++◌, some,
}
use domain_ssl_checker.Forms.Numbers.{int_or, is_blank, parse_int}

pub record DomainForm : Type 0 where
  pub id : Text
  pub url : Text
  pub interval : Text
  pub notes : Text
  pub type : Text
  pub manual_expiry : Text
  pub manual_registrar : Text
  pub ct_enabled : Bool

-- The body of the request, with `ct_monitoring_enabled` where it is sent.
pub record DomainBody : Type 0 where
  pub url : Text
  pub check_interval : ℤ
  pub notes : Text
  pub type : Text
  pub manual_expiry_date : Text
  pub manual_registrar : Text
  pub ct_monitoring : Option Bool

pub data DomainEffect : Type 0 where
  button_busy button_free : DomainEffect
  -- `PUT /api/domains/id` and `POST /api/domains`
  put_domain : Text → DomainBody → DomainEffect
  post_domain : DomainBody → DomainEffect
  -- `POST /api/domains` with the url and the type only
  post_quick : Text → Text → DomainEffect
  -- "Domain updated", "SSL domain added" or "Domain added"
  domain_updated ssl_domain_added domain_added : DomainEffect
  dialog_closed : DomainEffect
  -- `clearDomainsCache(type); loadDomains(type);`
  list_reloaded : ListType → DomainEffect
  -- `loadDashboard`, and `clearDomainsCache()` without a type
  dashboard_loaded domains_cleared : DomainEffect
  save_failed : DomainEffect

abbrev pub body_of : DomainForm → Option Bool → DomainBody
body_of f ct = record {
  url = trim f.url;
  check_interval = int_or (parse_int f.interval) 360;
  notes = trim f.notes;
  type = if is_blank f.type then codes "full" else f.type;
  manual_expiry_date = f.manual_expiry;
  manual_registrar = trim f.manual_registrar;
  ct_monitoring = ct;
}

-- What a saved domain reloads on a view.
abbrev pub reload_view : String → List DomainEffect
reload_view view =
    if str_eq view "domains"
    then list_reloaded full ∷ []
    else if str_eq view "sslcerts"
    then list_reloaded ssl_only ∷ []
    else if str_eq view "dashboard"
    then dashboard_loaded ∷ []
    else []

abbrev pub added_toast : Text → DomainEffect
added_toast type = if text_eq type (codes "ssl_only") then ssl_domain_added else domain_added

unfoldable pub submit_domain : String → Bool → DomainForm → List DomainEffect
submit_domain view ok f =
    let add = is_blank f.id in
    button_busy
      ∷ (if add
          then post_domain (body_of f none)
          else put_domain f.id (body_of f (some f.ct_enabled)))
      ∷ (if ok
          then (if add then added_toast (body_of f none).type else domain_updated)
            ∷ dialog_closed
            ∷ reload_view view
          else save_failed ∷ [])
    ++ button_free ∷ []

-- The quick add of the dashboard.
unfoldable pub submit_quick : Bool → Text → Text → List DomainEffect
submit_quick ok url type =
    if is_blank (trim url)
    then []
    else button_busy
        ∷ post_quick (trim url) type
        ∷ (if ok
            then domain_added ∷ dialog_closed ∷ domains_cleared ∷ dashboard_loaded ∷ []
            else save_failed ∷ [])
      ++ button_free ∷ []
