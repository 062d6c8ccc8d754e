-- ===== src/Forms/WebappDialog.antt =====
-- The dialog of a web app: `openWebAppModal`. `parse` is `JSON.parse` of a list of tags, `none` where
-- it throws. What is assigned to an element of the form is what that element keeps of it.
pub mod Laws
use domain_ssl_checker.Digits.{show}
use domain_ssl_checker.Forms.WebappForm.{WebappForm}
use domain_ssl_checker.Forms.Inputs.{one_line, area_value, select_value}
use domain_ssl_checker.Forms.Numbers.{num_or}
use domain_ssl_checker.Base.{
  Text, ℕ, Option, Bool, [], List, some, codes, none, ◌∷◌, false, join, true, text_or,
}

-- The headers of a request: a text, or an object, by what `JSON.stringify(…, null, 2)` writes of it.
pub data Headers : Type 0 where
  header_text header_object : Text → Headers

-- What the dialog reads of a row of `/api/webapps`.
pub record WebappEntry : Type 0 where
  pub id : ℕ
  pub name : Text
  pub url : Text
  pub method : Option Text
  pub expected_status : Option ℕ
  pub expected_body : Option Text
  pub expected_body_negate : Bool
  pub timeout : Option ℕ
  pub check_interval : Option ℕ
  pub headers : Option Headers
  pub body : Option Text
  pub notes : Option Text
  pub tags : Option Text
  pub notify_on_down : Bool
  pub notify_on_recovery : Bool

abbrev pub headers_value : Option Headers → Text
headers_value none = []
headers_value (some (header_text t)) = t
headers_value (some (header_object t)) = t

-- The tags joined, or the text itself where it is no JSON.
abbrev pub joined_or : Option (List Text) → Text → Text
joined_or none t = t
joined_or (some ts) t = join (codes ", ") ts

-- The options of `webapp-method` and `webapp-check-interval`
abbrev pub method_options : List Text
method_options = codes "GET" ∷ codes "POST" ∷ codes "PUT" ∷ codes "PATCH" ∷ codes "HEAD" ∷ []

abbrev pub interval_options : List Text
interval_options = codes "60" ∷ codes "300" ∷ codes "900" ∷ codes "1800" ∷ codes "3600" ∷ []

module _ (parse : Text → Option (List Text)) where
  -- `tagsVal`
  abbrev pub tags_value : Option Text → Text
  tags_value none = []
  tags_value (some []) = []
  tags_value (some (c ∷ cs)) = joined_or (parse (c ∷ cs)) (c ∷ cs)

  unfoldable pub open_webapp_modal : Option WebappEntry → WebappForm
  open_webapp_modal none = record {
    id = [];
    name = [];
    url = [];
    method = codes "GET";
    expected_status = codes "200";
    expected_body = [];
    negate = false;
    timeout = codes "10";
    check_interval = codes "300";
    headers = [];
    body = [];
    notes = [];
    tags = [];
    notify_down = true;
    notify_recovery = true;
  }
  open_webapp_modal (some a) = record {
    id = show a.id;
    name = one_line a.name;
    url = one_line a.url;
    method = select_value method_options (text_or a.method (codes "GET"));
    expected_status = show (num_or a.expected_status 200);
    expected_body = one_line (text_or a.expected_body []);
    negate = a.expected_body_negate;
    timeout = show (num_or a.timeout 10);
    check_interval = select_value interval_options (show (num_or a.check_interval 300));
    headers = area_value (headers_value a.headers);
    body = area_value (text_or a.body []);
    notes = area_value (text_or a.notes []);
    tags = one_line (tags_value a.tags);
    notify_down = a.notify_on_down;
    notify_recovery = a.notify_on_recovery;
  }
