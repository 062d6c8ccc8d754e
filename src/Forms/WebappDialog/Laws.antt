-- ===== src/Forms/WebappDialog/Laws.antt =====
-- A web app that is edited and saved as it was.
use domain_ssl_checker.Forms.WebappDialog.{
  WebappEntry, headers_value, method_options, interval_options,
}
use domain_ssl_checker.Forms.WebappForm.{WebappBody, WebappEffect, put_webapp, post_webapp}
use domain_ssl_checker.Forms.Inputs.{is_newline}
use domain_ssl_checker.Forms.Numbers.{num_or, or_null, is_blank}
use domain_ssl_checker.Digits.{show}
use domain_ssl_checker.Base.{
  Text, any, text_eq, List, trim, ◌==◌, filter, ◌∷◌, ◌≡◌, not, false, map, split, codes, [],
  text_or, Option, pos, some, ◌||◌, none, true,
}

-- A tag that is kept as it is: on one line without a comma, with no white space at its ends, and not empty.
abbrev pub IsTag : Text → Type 0
IsTag t =
    (any (λ c. c == b',') t ≡ false)
    × (trim t ≡ t)
    × (is_blank t ≡ false)
    × (any is_newline t ≡ false)

-- The tags that a submission reads.
abbrev pub read_tags : Text → List Text
read_tags s = filter (λ t. not (is_blank t)) (map trim (split b',' s))

-- The entries of the web app that the form shows, with these tags; what is null or 0 stands as its
-- default.
abbrev pub webapp_entry_body : WebappEntry → List Text → WebappBody
webapp_entry_body a ts = record {
  name = a.name;
  url = a.url;
  method = text_or a.method (codes "GET");
  expected_status = pos (num_or a.expected_status 200);
  expected_body = or_null (text_or a.expected_body []);
  expected_body_negate = a.expected_body_negate;
  timeout = pos (num_or a.timeout 10);
  check_interval = pos (num_or a.check_interval 300);
  headers = or_null (headers_value a.headers);
  body = or_null (text_or a.body []);
  notes = text_or a.notes [];
  tags = ts;
  notify_on_down = a.notify_on_down;
  notify_on_recovery = a.notify_on_recovery;
}

abbrev pub webapp_requests : List WebappEffect → List (Option Text × WebappBody)
webapp_requests [] = []
webapp_requests (put_webapp id b ∷ es) = (some id, b) ∷ webapp_requests es
webapp_requests (post_webapp b ∷ es) = (none, b) ∷ webapp_requests es
webapp_requests (e ∷ es) = webapp_requests es

abbrev pub Trimmed : Text → Type 0
Trimmed t = trim t ≡ t

-- A text that an input of one line, or an area, keeps as it is.
abbrev pub OneLine : Text → Type 0
OneLine t = any is_newline t ≡ false

abbrev pub NoReturn : Text → Type 0
NoReturn t = any (λ c. c == 13) t ≡ false

-- What the form can show of a web app: a method and an interval among the options, texts without white
-- space at their ends, those of one line on one line, and a name and a url.
pub record FitsForm (a : WebappEntry) : Type 0 where
  pub name : Trimmed a.name × OneLine a.name
  pub url : Trimmed a.url × OneLine a.url
  pub expected_body : Trimmed (text_or a.expected_body []) × OneLine (text_or a.expected_body [])
  pub headers : Trimmed (headers_value a.headers) × NoReturn (headers_value a.headers)
  pub body : NoReturn (text_or a.body [])
  pub notes : Trimmed (text_or a.notes []) × NoReturn (text_or a.notes [])
  pub method : any (λ o. text_eq o (text_or a.method (codes "GET"))) method_options ≡ true
  pub interval : any (λ o. text_eq o (show (num_or a.check_interval 300))) interval_options ≡ true
  pub named : (is_blank a.name || is_blank a.url) ≡ false
