-- ===== src/Views.antt =====
-- Navigation and roles: `activateView` with the timers around it, the hash of the address,
-- `checkSession` and `applyRoleBasedUI`.
pub mod Laws
mod Tests
use domain_ssl_checker.Domains.{ListType, full, ssl_only}
use domain_ssl_checker.Base.{
  Option, String, Bool, ℕ, [], List, Text, str_eq, if◌then◌else◌, ◌++◌, none, some, true, ◌∷◌, not,
  ◌||◌, ◌&&◌, ltb, false, text_or, any,
}

-- The loads that a view starts.
pub data Load : Type 0 where
  dashboard logs settings backups dns ports : Load
  -- `loadDomains(type, true)`
  domains : ListType → Load
  -- `loadWebappViewPrefs(); loadWebApps(true);`
  webapps : Load

-- The timers that run: `loadDashboard(true)` every so many seconds, and `refreshRelTimes`.
pub record Timers : Type 0 where
  pub refresh : Option ℕ
  pub rel_times : Bool

pub record Page : Type 0 where
  -- `_userRole`
  pub role : String
  -- `_currentUsername`
  pub username : Text
  -- `activeView`
  pub view : String
  pub hash : String
  -- `_autoRefresh`, in seconds
  pub auto_refresh : ℕ
  pub timers : Timers
  pub loads : List Load

abbrev pub is_restricted : String → Bool
is_restricted view = str_eq view "settings" || str_eq view "logs" || str_eq view "backups"

abbrev pub load_if : Bool → Load → List Load
load_if b l = if b then l ∷ [] else []

abbrev pub loads_of : String → List Load
loads_of view =
    load_if (str_eq view "dashboard") dashboard
    ++ load_if (str_eq view "logs") logs
    ++ load_if (str_eq view "settings") settings
    ++ load_if (str_eq view "backups") backups
    ++ load_if (str_eq view "domains") (domains full)
    ++ load_if (str_eq view "sslcerts") (domains ssl_only)
    ++ load_if (str_eq view "webapps") webapps
    ++ load_if (str_eq view "dns") dns
    ++ load_if (str_eq view "ports") ports

unfoldable pub show_view : String → Page → Page
show_view view s = record s { view = view; loads = s.loads ++ loads_of view }

-- The first `activateView`.
unfoldable pub activate_first : String → Page → Page
activate_first view s =
    if not (str_eq s.role "admin") && is_restricted view
    then show_view "dashboard" (record s { hash = "dashboard" })
    else show_view view s

abbrev pub timers_for : String → ℕ → Timers
timers_for view auto_refresh = record {
  refresh = if ltb 0 auto_refresh && str_eq view "dashboard" then some auto_refresh else none;
  rel_times = str_eq view "domains" || str_eq view "sslcerts";
}

-- The `activateView` that replaces it.
unfoldable pub activate_view : String → Page → Page
activate_view view s =
    let s' = activate_first view s in record s' { timers = timers_for view s.auto_refresh }

-- `window.location.hash.slice(1) || 'dashboard'`; the hash is given without its first character.
unfoldable pub hash_change : String → Page → Page
hash_change hash s =
    activate_view (if str_eq hash "" then "dashboard" else hash) (record s { hash = hash })

-- The auto-refresh select.
unfoldable pub choose_auto_refresh : ℕ → Page → Page
choose_auto_refresh seconds s = record s {
  auto_refresh = seconds;
  timers = record s.timers {
    refresh = if ltb 0 seconds && str_eq s.view "dashboard" then some seconds else none;
  };
}

-- The page before the session is known.
abbrev pub first_page : Page
first_page = record {
  role = "admin";
  username = [];
  view = "dashboard";
  hash = "";
  auto_refresh = 0;
  timers = record { refresh = none; rel_times = false };
  loads = [];
}

-- The answer of `/api/me`: its role and its name, if it has them.
pub record Me : Type 0 where
  pub role : Option String
  pub username : Option Text

-- `data.role || 'admin'`
abbrev pub role_of : Option String → String
role_of none = "admin"
role_of (some r) = if str_eq r "" then "admin" else r

-- `checkSession`; the Boolean says that the page goes back to the login.
unfoldable pub check_session : Option Me → Page → Page × Bool
check_session none s = (s, true)
check_session (some me) s =
    (record s { role = role_of me.role; username = text_or me.username [] }, false)

-- The sidebar items and the buttons, by view, that `applyRoleBasedUI` hides from a viewer.
abbrev hidden_buttons : List (String × String)
hidden_buttons =
    ("dashboard", "check-all-full")
    ∷ ("dashboard", "check-all-ssl")
    ∷ ("dashboard", "export-csv")
    ∷ ("domains", "export")
    ∷ ("domains", "import")
    ∷ ("domains", "check-all-full")
    ∷ ("domains", "add-domain-full")
    ∷ ("domains", "download-template")
    ∷ ("sslcerts", "export")
    ∷ ("sslcerts", "import")
    ∷ ("sslcerts", "check-all-ssl")
    ∷ ("sslcerts", "add-domain-ssl")
    ∷ ("sslcerts", "download-template-ssl")
    ∷ ("webapps", "import")
    ∷ ("webapps", "check-all-webapps")
    ∷ ("webapps", "add-webapp")
    ∷ ("webapps", "download-template-webapp")
    ∷ ("webapps", "webapp-export-csv")
    ∷ ("webapps", "webapp-export-json")
    ∷ []

unfoldable pub is_hidden_button : String → String → String → Bool
is_hidden_button role view action =
    not (str_eq role "admin") && any (λ b. str_eq b.0 view && str_eq b.1 action) hidden_buttons

unfoldable pub is_hidden_item : String → String → Bool
is_hidden_item role view =
    not (str_eq role "admin")
    && (str_eq view "settings" || str_eq view "logs" || str_eq view "backups")
