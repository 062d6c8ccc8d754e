-- ===== src/Forms/Tests.antt =====
-- The theorems on the forms of users and web apps, at a new user and at an old web app.
use domain_ssl_checker.Password.{Policy}
use domain_ssl_checker.Forms.UserForm.{UserForm, submit_user}
use domain_ssl_checker.Forms.Laws.{IsSound, submit_user-IsSound}
use domain_ssl_checker.Base.{false, [], true, codes, List, none, Text, some, ◌∷◌, refl}
use domain_ssl_checker.Forms.WebappDialog.{WebappEntry, header_object}
use domain_ssl_checker.Forms.UserDialog.{
  UserDialog, open_user_modal, switch_user_mode, click_mode_link, edit_title, save_button,
}
use domain_ssl_checker.Forms.UserDialog.Laws.{IsDialog-IsCoherent, IsCoherent, switch, add}

abbrev form_policy : Policy
form_policy = record {
  min_length = 4;
  require_upper = false;
  require_lower = true;
  require_number = true;
  require_special = false;
}

abbrev new_user : UserForm
new_user = record {
  id = [];
  username = codes " ann ";
  email = codes "ann@a.org";
  password = codes "abc4";
  role = codes "viewer";
  invite_mode = false;
}

submit_user-IsSound_example : IsSound form_policy true (submit_user form_policy true new_user)
submit_user-IsSound_example = submit_user-IsSound form_policy true new_user

-- A dialog and a web app that is saved as it is.
abbrev some_dialog : UserDialog
some_dialog = record {
  title = edit_title (codes "ann");
  form = new_user;
  username_disabled = true;
  username_hint = false;
  email_required = false;
  email_hint = false;
  password_required = false;
  password_shown = true;
  link_shown = false;
  button = save_button;
  is_open = false;
}

IsDialog-IsCoherent_example : IsCoherent (click_mode_link (open_user_modal some_dialog))
unfolding open_user_modal switch_user_mode
IsDialog-IsCoherent_example =
    IsDialog-IsCoherent {d = click_mode_link (open_user_modal some_dialog)}
      (switch refl (add some_dialog))

abbrev old_webapp : WebappEntry
old_webapp = record {
  id = 3;
  name = codes "api";
  url = codes "https://a.org";
  method = none;
  expected_status = some 204;
  expected_body = none;
  expected_body_negate = false;
  timeout = none;
  check_interval = some 0;
  headers = some (header_object (codes "{}"));
  body = none;
  notes = some (codes "x y");
  tags = some (codes "[...]");
  notify_on_down = true;
  notify_on_recovery = false;
}

abbrev two_tags : List Text
two_tags = codes "prod" ∷ codes "eu 1" ∷ []
