-- ===== src/Login/Tests.antt =====
-- The theorem on the login page, at a name with spaces and a refusal.
use domain_ssl_checker.Login.{answered, LoginState, Answer, submit}
use domain_ssl_checker.Base.{codes, false, true, none, some, ◌≡◌, refl}
use domain_ssl_checker.Login.Laws.{is_shown_error, submit_lem}

abbrev filled_form : LoginState
filled_form = record {
  username = codes " ann ";
  password = codes "secret";
  remember = true;
  stored = none;
  loading = false;
  error = none;
  locked = false;
  username_error = false;
  password_error = false;
  dismiss = false;
  left = false;
}

abbrev refused : Answer
refused = answered 429 false (some (codes "<b>"))

submit_example :
    ((submit true refused filled_form).loading ≡ false)
    × ((submit true refused filled_form).left ≡ false)
    × (is_shown_error (submit true refused filled_form) ≡ true)
    × ((submit true refused filled_form).username_error ≡ true)
    × ((submit true refused filled_form).password_error ≡ true)
    × ((submit true refused filled_form).dismiss ≡ true)
    × ((submit true refused filled_form).locked ≡ true)
submit_example = submit_lem true refused filled_form refl
