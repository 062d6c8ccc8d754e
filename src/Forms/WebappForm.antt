-- ===== src/Forms/WebappForm.antt =====
-- The form of a web app: `webapp-form`.
use domain_ssl_checker.Base.{
  filter, Text, trim, Bool, ℤ, List, Option, if◌then◌else◌, not, ◌||◌, map, ◌∷◌, split, [],
}
use domain_ssl_checker.Forms.Numbers.{int_or, parse_int, or_null, is_blank}

pub record WebappForm : Type 0 where
  pub id : Text
  pub name : Text
  pub url : Text
  pub method : Text
  pub expected_status : Text
  pub expected_body : Text
  pub negate : Bool
  pub timeout : Text
  pub check_interval : Text
  pub headers : Text
  pub body : Text
  pub notes : Text
  pub tags : Text
  pub notify_down : Bool
  pub notify_recovery : Bool

pub record WebappBody : Type 0 where
  pub name : Text
  pub url : Text
  pub method : Text
  pub expected_status : ℤ
  pub expected_body : Option Text
  pub expected_body_negate : Bool
  pub timeout : ℤ
  pub check_interval : ℤ
  pub headers : Option Text
  pub body : Option Text
  pub notes : Text
  pub tags : List Text
  pub notify_on_down : Bool
  pub notify_on_recovery : Bool

pub data WebappEffect : Type 0 where
  -- "Name and URL are required"
  name_and_url_required : WebappEffect
  put_webapp : Text → WebappBody → WebappEffect
  post_webapp : WebappBody → WebappEffect
  dialog_closed webapps_reloaded : WebappEffect
  webapp_updated webapp_added : WebappEffect
  save_failed : WebappEffect

unfoldable pub data_of : WebappForm → WebappBody
data_of f = record {
  name = trim f.name;
  url = trim f.url;
  method = f.method;
  expected_status = int_or (parse_int f.expected_status) 200;
  expected_body = or_null (trim f.expected_body);
  expected_body_negate = f.negate;
  timeout = int_or (parse_int f.timeout) 10;
  check_interval = int_or (parse_int f.check_interval) 300;
  headers = or_null (trim f.headers);
  body = or_null f.body;
  notes = trim f.notes;
  tags = filter (λ t. not (is_blank t)) (map trim (split b',' f.tags));
  notify_on_down = f.notify_down;
  notify_on_recovery = f.notify_recovery;
}

unfoldable pub submit_webapp : Bool → WebappForm → List WebappEffect
submit_webapp ok f =
    let body = data_of f in
    if is_blank (trim f.name) || is_blank (trim f.url)
    then name_and_url_required ∷ []
    else (if is_blank f.id then post_webapp body else put_webapp f.id body)
      ∷ (if ok
          then dialog_closed
            ∷ webapps_reloaded
            ∷ (if is_blank f.id then webapp_added else webapp_updated)
            ∷ []
          else save_failed ∷ [])
