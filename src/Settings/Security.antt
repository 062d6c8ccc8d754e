-- ===== src/Settings/Security.antt =====
-- The security settings: `loadSecuritySettings`, `getSecurityFormData`, the submission of their form
-- and `reset-security`.
use domain_ssl_checker.Forms.Numbers.{parse_int, int_or}
use domain_ssl_checker.Base.{
  Text, ℤ, Option, ℕ, codes, Bool, not, some, if◌then◌else◌, true, false, ◌&&◌, text_eq, ◌≡◌, ◌==◌,
  none, ◌||◌, pos, refl,
}
use domain_ssl_checker.Digits.{show}

-- The nine inputs.
pub record SecurityForm : Type 0 where
  pub session_timeout : Text
  pub max_login_attempts : Text
  pub lockout_duration : Text
  pub min_password_length : Text
  pub require_uppercase : Bool
  pub require_lowercase : Bool
  pub require_number : Bool
  pub require_special : Bool
  pub log_retention_days : Text

-- The body of the request.
pub record SecurityBody : Type 0 where
  pub session_timeout : ℤ
  pub max_login_attempts : ℤ
  pub lockout_duration : ℤ
  pub min_password_length : ℤ
  pub require_uppercase : Bool
  pub require_lowercase : Bool
  pub require_number : Bool
  pub require_special : Bool
  pub log_retention_days : ℤ

-- The answer of `/api/security-settings`; what is missing is `none`.
pub record SecuritySettings : Type 0 where
  pub session_timeout : Option ℕ
  pub max_login_attempts : Option ℕ
  pub lockout_duration : Option ℕ
  pub min_password_length : Option ℕ
  pub require_uppercase : Option Bool
  pub require_lowercase : Option Bool
  pub require_number : Option Bool
  pub require_special : Option Bool

-- `n || d`, `b !== false` and `b || false`
abbrev pub positive_or : ℕ → Option ℕ → ℕ
positive_or d none = d
positive_or d (some n) = if n == 0 then d else n

abbrev pub unless_false : Option Bool → Bool
unless_false none = true
unless_false (some b) = b

abbrev pub if_true : Option Bool → Bool
if_true none = false
if_true (some b) = b

-- The inputs after `loadSecuritySettings`; `retention` is the entry of `/api/settings`, if it has it.
unfoldable pub security_loaded : SecuritySettings → Option ℕ → SecurityForm
security_loaded s retention = record {
  session_timeout = show (positive_or 60 s.session_timeout);
  max_login_attempts = show (positive_or 5 s.max_login_attempts);
  lockout_duration = show (positive_or 15 s.lockout_duration);
  min_password_length = show (positive_or 8 s.min_password_length);
  require_uppercase = unless_false s.require_uppercase;
  require_lowercase = unless_false s.require_lowercase;
  require_number = unless_false s.require_number;
  require_special = if_true s.require_special;
  log_retention_days = show (elim retention [ none ↦ 90 | some n ↦ n ]);
}

-- What the submission sends.
unfoldable pub security_body : SecurityForm → SecurityBody
security_body f = record {
  session_timeout = int_or (parse_int f.session_timeout) 60;
  max_login_attempts = int_or (parse_int f.max_login_attempts) 5;
  lockout_duration = int_or (parse_int f.lockout_duration) 15;
  min_password_length = int_or (parse_int f.min_password_length) 8;
  require_uppercase = f.require_uppercase;
  require_lowercase = f.require_lowercase;
  require_number = f.require_number;
  require_special = f.require_special;
  log_retention_days = int_or (parse_int f.log_retention_days) 90;
}

-- The inputs after `reset-security`.
abbrev pub security_defaults : SecurityForm
security_defaults = record {
  session_timeout = codes "60";
  max_login_attempts = codes "5";
  lockout_duration = codes "15";
  min_password_length = codes "8";
  require_uppercase = true;
  require_lowercase = true;
  require_number = true;
  require_special = false;
  log_retention_days = codes "90";
}

-- `JSON.stringify(a) === JSON.stringify(b)`
abbrev pub same_flag : Bool → Bool → Bool
same_flag a b = (a && b) || (not a && not b)

abbrev pub same_form : SecurityForm → SecurityForm → Bool
same_form f g =
    text_eq f.session_timeout g.session_timeout
    && text_eq f.max_login_attempts g.max_login_attempts
    && text_eq f.lockout_duration g.lockout_duration
    && text_eq f.min_password_length g.min_password_length
    && same_flag f.require_uppercase g.require_uppercase
    && same_flag f.require_lowercase g.require_lowercase
    && same_flag f.require_number g.require_number
    && same_flag f.require_special g.require_special
    && text_eq f.log_retention_days g.log_retention_days

-- `_pwPolicy`, with the length as it is sent
pub record SentPolicy : Type 0 where
  pub min_length : ℤ
  pub upper : Bool
  pub lower : Bool
  pub digit : Bool
  pub special : Bool

abbrev pub policy_of : SecurityBody → SentPolicy
policy_of b = record {
  min_length = b.min_password_length;
  upper = b.require_uppercase;
  lower = b.require_lowercase;
  digit = b.require_number;
  special = b.require_special;
}

pub record SecurityState : Type 0 where
  pub form : SecurityForm
  -- `_securityOriginal` and `_securityDirty`
  pub original : SecurityForm
  pub dirty : Bool
  pub policy : SentPolicy

-- `loadSecuritySettings`
unfoldable pub load_security : SecuritySettings → Option ℕ → SecurityState → SecurityState
load_security settings retention s =
    let form = security_loaded settings retention in
    record {
      form = form;
      original = form;
      dirty = false;
      policy = record {
        min_length = pos (positive_or 8 settings.min_password_length);
        upper = unless_false settings.require_uppercase;
        lower = unless_false settings.require_lowercase;
        digit = unless_false settings.require_number;
        special = if_true settings.require_special;
      };
    }

-- `input` and `change`
unfoldable pub change_security : SecurityForm → SecurityState → SecurityState
change_security f s = record s { form = f; dirty = not (same_form f s.original) }

-- The submission; a server that refuses changes nothing of the page.
unfoldable pub submit_security : Bool → SecurityState → SecurityState × SecurityBody
submit_security ok s =
    let body = security_body s.form in
    (if ok then record s { original = s.form; dirty = false; policy = policy_of body } else s, body)

-- A retention of 0 days, as the server may have it, is sent as 90.
retention_is_lost :
    (s : SecuritySettings)
    → (security_body (security_loaded s (some 0))).log_retention_days ≡ pos 90
unfolding security_body security_loaded parse_int show
retention_is_lost s = refl
