-- ===== src/Settings.antt =====
-- The settings: the form that `populateSettingsForm` fills, the fields that its submission sends,
-- and the mark of unsaved changes. The three forms (settings, webhooks, status page) share one record
-- of what was loaded, `_settingsOriginal`.
pub mod ApiKeys
pub mod Delta
pub mod Others
pub mod Saved
pub mod Security
pub mod Trials
mod Tests
use domain_ssl_checker.Base.{
  filter, Text, List, String, ℕ, Option, map, Bool, not, [], false, if◌then◌else◌, some, true,
  codes, join, none, str_eq, text_eq, ◌||◌, ◌∷◌, ◌==◌, split, ◌&&◌, ◌++◌,
}
use domain_ssl_checker.Forms.Numbers.{is_blank}
use domain_ssl_checker.Digits.{show}

-- What an input holds: its text, or whether it is checked.
pub data Value : Type 0 where
  text : Text → Value
  flag : Bool → Value

-- An object of inputs, in the order of its keys.
abbrev pub Fields : Type 0
Fields = List (String × Value)

-- The inputs of the page by their ids.
abbrev pub Form : Type 0
Form = String → Value

-- A value of the server's settings; a key that is missing is `none`.
pub data Stored : Type 0 where
  number : ℕ → Stored
  string : Text → Stored

abbrev pub ServerSettings : Type 0
ServerSettings = String → Option Stored

-- `s.key || d`, as the text of an input
abbrev pub stored_or : Text → Option Stored → Text
stored_or d none = d
stored_or d (some (number n)) = if n == 0 then d else show n
stored_or d (some (string t)) = if is_blank t then d else t

-- `s.key !== 0`
abbrev pub is_not_zero : Option Stored → Bool
is_not_zero none = true
is_not_zero (some (number n)) = not (n == 0)
is_not_zero (some (string t)) = true

-- What an input takes from the settings: a text or a number with a default, the addresses with
-- ", " between them, or a check box.
pub data Input : Type 0 where
  with_default : Text → Input
  addresses : Input
  check_box : Input

-- The inputs of `getSettingsFormData`, in its order.
abbrev pub setting_inputs : List (String × Input)
setting_inputs =
    ("smtp_server", with_default (codes "smtp.gmail.com"))
    ∷ ("smtp_port", with_default (codes "587"))
    ∷ ("smtp_email", with_default [])
    ∷ ("alert_emails", addresses)
    ∷ ("ssl_alert_threshold", with_default (codes "30"))
    ∷ ("domain_alert_threshold", with_default (codes "30"))
    ∷ ("smtp_enabled", check_box)
    ∷ ("slack_webhook_url", with_default [])
    ∷ ("slack_enabled", check_box)
    ∷ ("zulip_webhook_url", with_default [])
    ∷ ("zulip_enabled", check_box)
    ∷ ("discord_webhook_url", with_default [])
    ∷ ("discord_enabled", check_box)
    ∷ ("telegram_bot_token", with_default [])
    ∷ ("telegram_chat_id", with_default [])
    ∷ ("telegram_enabled", check_box)
    ∷ ("teams_webhook_url", with_default [])
    ∷ ("teams_enabled", check_box)
    ∷ ("generic_webhooks", with_default (codes "[]"))
    ∷ ("status_page_enabled", check_box)
    ∷ ("status_page_title", with_default [])
    ∷ []

abbrev pub input_value : Input → Option Stored → Value
input_value (with_default d) o = text (stored_or d o)
input_value addresses o = text (join (codes ", ") (split b',' (stored_or [] o)))
input_value check_box o = flag (is_not_zero o)

abbrev pub input_of : String → List (String × Input) → Option Input
input_of key [] = none
input_of key ((k, i) ∷ is) = let rest = input_of key is in if str_eq k key then some i else rest

-- The inputs after `populateSettingsForm`; another input keeps its value.
unfoldable pub populated : ServerSettings → Form → Form
populated s form key = elim (input_of key setting_inputs) [
  | none ↦ form key
  | some i ↦ input_value i (s key)
]

-- `value || '[]'` for the webhooks, and the value of the others
abbrev pub value_or_list : String → Value → Value
value_or_list key (flag b) = flag b
value_or_list key (text t) =
    if str_eq key "generic_webhooks" && is_blank t then text (codes "[]") else text t

-- `getSettingsFormData`
unfoldable pub form_data : Form → Fields
form_data form = map (λ i. (i.0, value_or_list i.0 (form i.0))) setting_inputs

-- `String(value)`, where the key may be missing
abbrev pub value_text : Option Value → Text
value_text none = codes "undefined"
value_text (some (text t)) = t
value_text (some (flag b)) = if b then codes "true" else codes "false"

-- `object[key]`
abbrev pub field_of : String → Fields → Option Value
field_of key [] = none
field_of key ((k, v) ∷ fs) = let rest = field_of key fs in if str_eq k key then some v else rest

abbrev pub same_value : Value → Value → Bool
same_value (text t) (text u) = text_eq t u
same_value (flag b) (flag c) = (b && c) || (not b && not c)
same_value _ _ = false

-- `JSON.stringify(a) === JSON.stringify(b)`
abbrev pub same_fields : Fields → Fields → Bool
same_fields [] [] = true
same_fields ((k, v) ∷ fs) ((l, w) ∷ gs) = str_eq k l && same_value v w && same_fields fs gs
same_fields _ _ = false

-- `changes`: the fields whose text differs from what was loaded
unfoldable pub changes_of : Fields → Fields → Fields
changes_of current original =
    filter (λ f. not (text_eq (value_text (some f.1)) (value_text (field_of f.0 original)))) current

pub record SettingsState : Type 0 where
  pub form : Form
  -- The input `smtp_password`
  pub password : Text
  pub original : Fields
  -- `_settingsDirty`, `_securityDirty` and `_emailTplDirty`
  pub dirty : Bool
  pub security_dirty : Bool
  pub template_dirty : Bool
  -- The mark of unsaved changes is shown.
  pub unsaved : Bool

-- `updateUnsavedIndicator`
unfoldable pub update_unsaved : SettingsState → SettingsState
update_unsaved s =
    let dirty = not (same_fields (form_data s.form) s.original) in
    record s { dirty = dirty; unsaved = dirty || s.security_dirty || s.template_dirty }

-- `populateSettingsForm`
unfoldable pub populate : ServerSettings → SettingsState → SettingsState
populate settings s =
    let form = populated settings s.form in
    update_unsaved
      (record s { form = form; password = []; original = form_data form; dirty = false })

abbrev pub with_password : Text → Fields → Fields
with_password [] changes = changes
with_password (c ∷ cs) changes = changes ++ ("smtp_password", text (c ∷ cs)) ∷ []

pub data SaveEffect : Type 0 where
  -- "Please fix the errors above", "No changes to save"
  invalid_fields no_changes : SaveEffect
  button_busy button_free : SaveEffect
  -- `PUT /api/settings`
  put_settings : Fields → SaveEffect
  -- The same from the other two forms, whose boxes are sent as 1 or 0
  put_form : List (String × Stored) → SaveEffect
  -- The message, the toast, the log, and the cached settings removed
  settings_saved : SaveEffect
  save_failed : SaveEffect

-- `_settingsOriginal = data; _settingsDirty = false; updateUnsavedIndicator();`
abbrev pub keep_original : Fields → SettingsState → SettingsState
keep_original kept s = update_unsaved (record s { original = kept; dirty = false })

-- A request with these fields, and what follows where the server accepts.
unfoldable pub put_fields : Bool → Fields → SettingsState → SettingsState × List SaveEffect
put_fields ok fields s =
    if ok
    then (
      keep_original (form_data s.form) s,
      button_busy ∷ put_settings fields ∷ settings_saved ∷ button_free ∷ [],
    )
    else (s, button_busy ∷ put_settings fields ∷ save_failed ∷ button_free ∷ [])

-- A request with the changes, if there are any.
abbrev pub save_changes : Bool → Fields → SettingsState → SettingsState × List SaveEffect
save_changes ok [] s = (s, no_changes ∷ [])
save_changes ok (f ∷ fs) s = put_fields ok (f ∷ fs) s

-- The submission of the settings; `valid` says that `validateField` passes every field.
unfoldable pub submit_settings : Bool → Bool → SettingsState → SettingsState × List SaveEffect
submit_settings valid ok s =
    if not valid
    then (s, invalid_fields ∷ [])
    else save_changes ok (with_password s.password (changes_of (form_data s.form) s.original)) s
