-- ===== src/Login.antt =====
-- The login page, ssl_domain_checker/static/login.js: the remembered name, the error that is shown,
-- and the submission of the form.
pub mod Escape
pub mod Laws
mod Tests
use domain_ssl_checker.Base.{
  Text, Bool, none, true, ℕ, false, Option, some, ◌∷◌, if◌then◌else◌, codes, trim, String, [], ◌==◌,
  ◌||◌, text_or, str_eq, not, ◌++◌,
}

-- The page: its form, the error under it, and the item of the storage.
pub record LoginState : Type 0 where
  pub username : Text
  pub password : Text
  pub remember : Bool
  -- `vigil-remembered-username` in the storage
  pub stored : Option Text
  -- `btn-loading` and `disabled`
  pub loading : Bool
  -- The text in the error, escaped, while it is shown, and its class `locked`
  pub error : Option Text
  pub locked : Bool
  -- The class `error` of the two inputs
  pub username_error : Bool
  pub password_error : Bool
  -- A timer that clears the error is set.
  pub dismiss : Bool
  -- `window.location.href = '/dashboard'`
  pub left : Bool

-- `loadRememberedUsername`
unfoldable pub load_remembered : LoginState → LoginState
load_remembered s = elim s.stored [
  | none ↦ s
  | some [] ↦ s
  | some (c ∷ cs) ↦ record s { username = c ∷ cs; remember = true }
]

-- `rememberInput.checked && usernameInput.value.trim()`, as the item to store
abbrev pub to_store : Bool → Text → Option Text
to_store false name = none
to_store true [] = none
to_store true (c ∷ cs) = some (c ∷ cs)

-- `saveRememberedUsername`; `writes` is false where the storage throws.
unfoldable pub save_remembered : Bool → LoginState → LoginState
save_remembered writes s = record s {
  stored = if writes then to_store s.remember (trim s.username) else s.stored;
}

unfoldable pub clear_error : LoginState → LoginState
clear_error s = record s {
  error = none;
  locked = false;
  username_error = false;
  password_error = false;
  dismiss = false;
}

unfoldable pub schedule_dismiss : LoginState → LoginState
schedule_dismiss s = record s { dismiss = true }

-- `s.replace(/c/g, t)` for a pattern of one code unit
abbrev pub replace_all : ℕ → Text → Text → Text
replace_all c t [] = []
replace_all c t (x ∷ xs) = (if x == c then t else x ∷ []) ++ replace_all c t xs

-- `safeMsg`
unfoldable pub safe_msg : Text → Text
safe_msg msg = replace_all b'"' (codes "&quot;") (
    replace_all b'>' (codes "&gt;")
      (replace_all b'<' (codes "&lt;") (replace_all b'&' (codes "&amp;") msg)))

unfoldable pub show_error : Text → Bool → LoginState → LoginState
show_error msg is_locked s = schedule_dismiss (record s {
  error = some (safe_msg msg);
  locked = s.locked || is_locked;
  username_error = true;
  password_error = true;
})

-- How `fetch` and `res.json()` end: rejected with a message, an answer whose body is not JSON, with
-- the message of that failure, or an answer with its status, `res.ok` and `data.error`.
pub data Answer : Type 0 where
  rejected : Text → Answer
  no_json : ℕ → Text → Answer
  answered : ℕ → Bool → Option Text → Answer

-- The form is submitted, up to its request.
unfoldable pub send : Bool → LoginState → LoginState
send writes s = save_remembered writes (clear_error (record s { loading = true }))

unfoldable pub receive : Answer → LoginState → LoginState
receive (rejected m) s = show_error m false s
receive (no_json status m) s = show_error m false s
receive (answered status ok e) s =
    if ok
    then record s { left = true }
    else show_error (text_or e (codes "Login failed")) (status == 429) s

-- The body of the request: `usernameInput.value.trim()` and the password.
abbrev pub credentials : LoginState → Text × Text
credentials s = (trim s.username, s.password)

-- The handler of `submit`, with its `finally`.
unfoldable pub submit : Bool → Answer → LoginState → LoginState
submit writes a s = record (receive a (send writes s)) { loading = false }

-- An input of the user, in the name or in the password.
unfoldable pub type_username : Text → LoginState → LoginState
type_username value s =
    let s' : LoginState = record s { username = value; username_error = false } in
    elim s.error [ none ↦ s' | some t ↦ schedule_dismiss s' ]

unfoldable pub type_password : Text → LoginState → LoginState
type_password value s =
    let s' : LoginState = record s { password = value; password_error = false } in
    elim s.error [ none ↦ s' | some t ↦ schedule_dismiss s' ]

-- The theme: whether the body has the class `light`, and the item `theme`.
unfoldable pub load_theme : Option String → Bool
load_theme none = false
load_theme (some t) = str_eq t "light"

unfoldable pub toggle_theme : Bool → Bool × Option String
toggle_theme light = (not light, some (if not light then "light" else "dark"))
