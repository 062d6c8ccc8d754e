-- ===== src/Forms/UserForm.antt =====
-- The form of a user: `user-form`.
use domain_ssl_checker.Base.{
  Text, List, Bool, Option, true, ◌∷◌, trim, if◌then◌else◌, [], not, false, ◌++◌,
}
use domain_ssl_checker.Password.{Policy, PwError, validate_password}
use domain_ssl_checker.Forms.Numbers.{is_blank, or_null}

pub record UserForm : Type 0 where
  -- Empty for a new user
  pub id : Text
  pub username : Text
  pub email : Text
  pub password : Text
  pub role : Text
  -- `_userInviteMode`
  pub invite_mode : Bool

-- The requests: PUT /api/users/id, POST /api/users/invite and POST /api/users.
pub data UserRequest : Type 0 where
  -- The id, the role, and the password and the email if they are given
  update_user : Text → Text → Option Text → Option Text → UserRequest
  -- The name, the email and the role
  invite_user : Text → Text → Text → UserRequest
  -- The name, the password, the role and the email
  create_user : Text → Text → Text → Text → UserRequest

pub data UserFormEffect : Type 0 where
  -- "Password: ...", "Email is required for invite", "Password required", "Email is required"
  password_refused : List PwError → UserFormEffect
  email_for_invite password_required email_required : UserFormEffect
  -- `setLoading`
  button_busy button_free : UserFormEffect
  sent : UserRequest → UserFormEffect
  -- The toast, with `closeUserModal` and `loadUsers`
  user_saved : UserFormEffect
  -- `POST /api/logs`, where the Boolean says "updated"
  user_logged : Bool → Text → UserFormEffect
  -- The toast of an error
  save_failed : UserFormEffect

-- `!password || !validatePassword(password).length`
unfoldable pub keeps_policy : Policy → Text → Bool
keeps_policy p [] = true
keeps_policy p (c ∷ cs) = elim (validate_password p (c ∷ cs)) [ [] ↦ true | e ∷ es ↦ false ]

-- A request, and what follows it if the server accepts.
unfoldable pub send_user : Bool → Bool → Text → UserRequest → List UserFormEffect
send_user ok updated username r =
    button_busy
      ∷ sent r
      ∷ (if ok then user_saved ∷ user_logged updated username ∷ [] else save_failed ∷ [])
    ++ button_free ∷ []

-- The form without an id.
unfoldable pub add_user : Bool → UserForm → List UserFormEffect
add_user ok f =
    let name = trim f.username in
    let email = trim f.email in
    if f.invite_mode
    then (if is_blank email
        then button_busy ∷ email_for_invite ∷ button_free ∷ []
        else send_user ok false name (invite_user name email f.role))
    else if is_blank f.password
    then button_busy ∷ password_required ∷ button_free ∷ []
    else if is_blank email
    then button_busy ∷ email_required ∷ button_free ∷ []
    else send_user ok false name (create_user name f.password f.role email)

-- The handler of `submit`; `ok` says that the server accepts.
unfoldable pub submit_user : Policy → Bool → UserForm → List UserFormEffect
submit_user p ok f =
    if not (keeps_policy p f.password)
    then password_refused (validate_password p f.password) ∷ []
    else if not (is_blank f.id)
    then send_user ok true (trim f.username)
        (update_user f.id f.role (or_null f.password) (or_null (trim f.email)))
    else add_user ok f
