-- ===== src/Forms/UserDialog/Laws.antt =====
-- What the dialog of a user requires, shows and sends.
use domain_ssl_checker.Forms.UserDialog.{
  UserDialog, open_user_modal, open_edit_user_modal, click_mode_link, close_user_modal,
  switch_user_mode, send_invite, create_button, save_button,
}
use domain_ssl_checker.Forms.UserForm.{submit_user, update_user, keeps_policy, send_user}
use domain_ssl_checker.Forms.Laws.{sent_of}
use domain_ssl_checker.Forms.Numbers.{is_blank, or_null}
use domain_ssl_checker.Forms.Numbers.Laws.{is_blank-show}
use domain_ssl_checker.Password.{Policy}
use domain_ssl_checker.Digits.{show}
use domain_ssl_checker.Base.{
  ℕ, ◌≡◌, Text, true, Option, if◌then◌else◌, Bool, not, trim, ◌||◌, text_or, [], codes, none, ◌∷◌,
  false, refl, arith,
}

-- The dialogs that come to be: the page opens one, the user types, clicks the link where it is shown, and
-- closes the dialog.
pub data IsDialog : UserDialog → Type 0 where
  add : (d : UserDialog) → IsDialog (open_user_modal d)
  edit :
      (d : UserDialog) (id : ℕ) (name : Text) (role email : Option Text)
      → IsDialog (open_edit_user_modal id name role email d)
  type_in :
      {d : UserDialog} (username email password role : Text)
      → IsDialog d
      → IsDialog (record d {
        form = record d.form {
          username = username;
          email = email;
          password = password;
          role = role;
        };
      })
  switch : {d : UserDialog} → d.link_shown ≡ true → IsDialog d → IsDialog (click_mode_link d)
  close : {d : UserDialog} → IsDialog d → IsDialog (close_user_modal d)

-- A password is required only where its section is shown; the button says what the form does; the link
-- is shown for a new user only, and there an email is required.
pub record IsCoherent (d : UserDialog) : Type 0 where
  pub required_shown : d.password_required ≡ true → d.password_shown ≡ true
  pub link_for_new : d.link_shown ≡ is_blank d.form.id
  pub email_for_new : d.email_required ≡ is_blank d.form.id
  pub button_says : d.button ≡ (
      if not (is_blank d.form.id)
      then save_button
      else if d.form.invite_mode
      then send_invite
      else create_button)
  pub shown_exactly : d.password_shown ≡ (not (is_blank d.form.id) || not d.form.invite_mode)

-- However the dialog of a user is opened, filled in, switched and closed: a required password is shown,
-- the link to switch the mode is shown and an email required exactly for a new user, the section of the
-- password is hidden exactly for an invitation, and the label of the button says what the form will send.
pub IsDialog-IsCoherent : {d : UserDialog} → IsDialog d → IsCoherent d
unfolding open_user_modal open_edit_user_modal click_mode_link switch_user_mode close_user_modal
IsDialog-IsCoherent (add d) = ground arith
IsDialog-IsCoherent (edit d id name role email) = ground (arith, is_blank-show id)
IsDialog-IsCoherent (type_in u em p r c) = ground (arith, IsDialog-IsCoherent c)
IsDialog-IsCoherent (switch h c) = ground (arith, IsDialog-IsCoherent c)
IsDialog-IsCoherent (close c) = ground (arith, IsDialog-IsCoherent c)

-- A user that is opened for an edit and saved as it is, is sent with its role and its email, and with no
-- password.
pub submit_user-edit :
    (p : Policy) (ok : Bool) (id : ℕ) (name : Text) (role email : Option Text) (d : UserDialog)
    → trim (text_or email []) ≡ text_or email []
    → sent_of (submit_user p ok (open_edit_user_modal id name role email d).form)
      ≡ update_user (show id) (text_or role (codes "viewer")) none (or_null (text_or email [])) ∷ []
unfolding open_edit_user_modal submit_user keeps_policy send_user
submit_user-edit p true id name role email d h = rw (is_blank-show id, h) refl
submit_user-edit p false id name role email d h = rw (is_blank-show id, h) refl
