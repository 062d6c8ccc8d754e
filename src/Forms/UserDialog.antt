-- ===== src/Forms/UserDialog.antt =====
-- The dialog of a user: `openUserModal`, `openEditUserModal`, `switchUserMode` with the link that calls
-- it, and `closeUserModal`.
pub mod Laws
use domain_ssl_checker.Digits.{show}
use domain_ssl_checker.Forms.UserForm.{UserForm}
use domain_ssl_checker.Forms.Numbers.{is_blank}
use domain_ssl_checker.Base.{
  Text, Bool, true, ℕ, not, false, if◌then◌else◌, [], Option, codes, text_or,
}

pub data UserTitle : Type 0 where
  -- "Add User", and "Edit User: name"
  add_title : UserTitle
  edit_title : Text → UserTitle

-- "Send Invite", "Create User" and "Save"
pub data UserButton : Type 0 where
  send_invite create_button save_button : UserButton

-- "Invite email will be sent to this address", "Usernames cannot be changed after creation."
pub record UserDialog : Type 0 where
  pub title : UserTitle
  pub form : UserForm
  pub username_disabled : Bool
  pub username_hint : Bool
  pub email_required : Bool
  pub email_hint : Bool
  pub password_required : Bool
  -- The section of the password, and the link that switches the mode
  pub password_shown : Bool
  pub link_shown : Bool
  pub button : UserButton
  pub is_open : Bool

-- `switchUserMode`; `_userInviteMode` is a field of the form.
unfoldable pub switch_user_mode : Bool → UserDialog → UserDialog
switch_user_mode invite d = record d {
  form = record d.form { invite_mode = invite };
  password_shown = not invite;
  link_shown = true;
  button = if invite then send_invite else create_button;
  password_required = not invite;
  email_hint = invite;
}

unfoldable pub open_user_modal : UserDialog → UserDialog
open_user_modal d =
    record (switch_user_mode true (record d {
      title = add_title;
      form = record {
        id = [];
        username = [];
        email = [];
        password = [];
        role = codes "viewer";
        invite_mode = d.form.invite_mode;
      };
      username_disabled = false;
      username_hint = false;
      email_required = true;
      email_hint = true;
    })) { is_open = true }

-- The id, the name, the role and the email of the row; the mode stays what it was.
unfoldable pub open_edit_user_modal : ℕ → Text → Option Text → Option Text → UserDialog → UserDialog
open_edit_user_modal id name role email d = record {
  title = edit_title name;
  form = record {
    id = show id;
    username = name;
    email = text_or email [];
    password = [];
    role = text_or role (codes "viewer");
    invite_mode = d.form.invite_mode;
  };
  username_disabled = true;
  username_hint = true;
  email_required = false;
  email_hint = false;
  password_required = false;
  password_shown = true;
  link_shown = false;
  button = save_button;
  is_open = true;
}

-- `user-invite-toggle-link`
unfoldable pub click_mode_link : UserDialog → UserDialog
click_mode_link d = switch_user_mode (not d.form.invite_mode) d

unfoldable pub close_user_modal : UserDialog → UserDialog
close_user_modal d = record d { is_open = false }
