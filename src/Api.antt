-- ===== src/Api.antt =====
-- `api`: one call of the server, with the CSRF token that the page holds.
pub mod Run
mod Tests
use domain_ssl_checker.Base.{
  Text, Option, Bool, codes, if◌then◌else◌, ℕ, List, true, some, false, truthy, ◌||◌, ◌==◌, none,
  text_or, not, ◌∷◌, [],
}

pub data Method : Type 0 where
  get post put del : Method

-- A `fetch` that was sent. The body is present or not; `no_store` is the cache mode.
pub record Request : Type 0 where
  pub method : Method
  pub path : Text
  pub has_body : Bool
  pub token : Option Text
  pub no_store : Bool

-- An answer. `error` is what its body says where it is no success: `none` if the body is not JSON,
-- `some none` if it has no `error`. `contents` is `none` where the JSON of a success does not parse.
pub record Response (D : Type 0) : Type 0 where
  pub new_token : Option Text
  pub status : ℕ
  pub ok : Bool
  pub error : Option (Option Text)
  pub contents : Option D

-- How a call ends: with the data, with `undefined`, or with an exception.
pub data Outcome (D : Type 0) : Type 0 where
  returned : D → Outcome D
  undefined : Outcome D
  thrown : Text → Outcome D

pub record Call (D : Type 0) : Type 0 where
  -- `_csrfToken` afterwards
  pub held : Option Text
  pub sent : List Request
  pub outcome : Outcome D
  -- `window.location.href = '/'`
  pub redirected : Bool

abbrev pub is_get : Method → Bool
is_get get = true
is_get post = false
is_get put = false
is_get del = false

-- The token as a header, if it is truthy.
abbrev pub header_of : Option Text → Option Text
header_of none = none
header_of (some []) = none
header_of (some (c ∷ cs)) = some (c ∷ cs)

abbrev pub token_request : Request
token_request = record {
  method = get;
  path = codes "/api/csrf-token";
  has_body = false;
  token = none;
  no_store = false;
}

-- `if (newToken) _csrfToken = newToken;`
abbrev pub keep_token : Option Text → Option Text → Option Text
keep_token held new_token = if truthy new_token then new_token else held

-- `d.error || 'Request failed'`
abbrev pub error_text : Option (Option Text) → Text
error_text none = codes "Request failed"
error_text (some o) = text_or o (codes "Request failed")

-- `csrf` is the token that `/api/csrf-token` answers, `none` where it fails.
unfoldable pub held_for : Method → Option Text → Option Text → Option Text
held_for method held csrf =
    if is_get method || truthy held then held else elim csrf [ none ↦ held | some t ↦ some t ]

unfoldable pub requests_for : Method → Text → Bool → Option Text → Option Text → List Request
requests_for method path has_body held csrf =
    let call : Request = record {
      method = method;
      path = path;
      has_body = has_body;
      token = if is_get method then none else header_of (held_for method held csrf);
      no_store = is_get method;
    } in
    if is_get method || truthy held then call ∷ [] else token_request ∷ call ∷ []

module _ {D : Type 0} where
  unfoldable pub outcome_of : Response D → Outcome D
  outcome_of r =
      if r.status == 401
      then undefined
      else if not r.ok
      then thrown (error_text r.error)
      else elim r.contents [ none ↦ thrown (codes "JSON") | some d ↦ returned d ]

  -- `response` is `none` where `fetch` rejects.
  unfoldable pub api :
      Method → Text → Bool → Option Text → Option Text → Option (Response D) → Call D
  api method path has_body held csrf none = record {
    held = held_for method held csrf;
    sent = requests_for method path has_body held csrf;
    outcome = thrown (codes "fetch");
    redirected = false;
  }
  api method path has_body held csrf (some r) = record {
    held = keep_token (held_for method held csrf) r.new_token;
    sent = requests_for method path has_body held csrf;
    outcome = outcome_of r;
    redirected = r.status == 401;
  }
