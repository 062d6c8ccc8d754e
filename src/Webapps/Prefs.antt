-- ===== src/Webapps/Prefs.antt =====
-- The preferences of the web apps: `saveWebappViewPrefs` and `loadWebappViewPrefs`.
use domain_ssl_checker.Domains.{Dir}
use domain_ssl_checker.Forms.Numbers.{is_blank}
use domain_ssl_checker.Base.{
  Text, Option, some, String, if◌then◌else◌, ℕ, none, Bool, ◌≡◌, List, ◌==◌, false, true, refl,
}

-- The globals that are kept: `_webappViewMode`, `_webappSort`, `_webappFilter`,
-- `_webappGroupByStatus`, `_webappPagination.size`, `_webappVisibleCols` and
-- `_webappCollapsedGroups`.
pub record WebappView : Type 0 where
  pub view_mode : Text
  pub sort : String × Dir
  pub filter : Text
  pub group_by : Bool
  pub size : ℕ
  pub cols : List (String × Bool)
  pub collapsed : List Text

-- The stored object, where every entry may be missing.
pub record WebappPrefs : Type 0 where
  pub view_mode : Option Text
  pub sort : Option (String × Dir)
  pub filter : Option Text
  pub group_by : Option Bool
  pub size : Option ℕ
  pub cols : Option (List (String × Bool))
  pub collapsed : Option (List Text)

unfoldable pub prefs_of_view : WebappView → WebappPrefs
prefs_of_view v = record {
  view_mode = some v.view_mode;
  sort = some v.sort;
  filter = some v.filter;
  group_by = some v.group_by;
  size = some v.size;
  cols = some v.cols;
  collapsed = some v.collapsed;
}

-- `if (t) x = t;`, for a text and for a number
abbrev pub text_if : Option Text → Text → Text
text_if none old = old
text_if (some t) old = if is_blank t then old else t

abbrev pub number_if : Option ℕ → ℕ → ℕ
number_if none old = old
number_if (some n) old = if n == 0 then old else n

-- The same for what is truthy whenever it is there
abbrev pub given_or {ℓ} : {A : Type ℓ} → Option A → A → A
given_or none old = old
given_or (some a) old = a

unfoldable pub apply_webapp_prefs : WebappPrefs → WebappView → WebappView
apply_webapp_prefs p v = record {
  view_mode = text_if p.view_mode v.view_mode;
  sort = given_or p.sort v.sort;
  filter = text_if p.filter v.filter;
  group_by = given_or p.group_by v.group_by;
  size = number_if p.size v.size;
  cols = given_or p.cols v.cols;
  collapsed = given_or p.collapsed v.collapsed;
}

-- `parse` is `JSON.parse`, `none` where it throws; `write` is `JSON.stringify`.
module _ (parse : Text → Option WebappPrefs) (write : WebappPrefs → Text) where
  -- The item afterwards; `accepts` is false where the storage throws.
  unfoldable pub save_webapp_prefs : Bool → WebappView → Option Text → Option Text
  save_webapp_prefs accepts v item = if accepts then some (write (prefs_of_view v)) else item

  abbrev pub apply_parsed : Option WebappPrefs → WebappView → WebappView
  apply_parsed none v = v
  apply_parsed (some p) v = apply_webapp_prefs p v

  unfoldable pub load_webapp_prefs : Option Text → WebappView → WebappView
  load_webapp_prefs none v = v
  load_webapp_prefs (some t) v = if is_blank t then v else apply_parsed (parse t) v

  -- What was saved is what a page loaded later starts with, if JSON reads what it writes.
  load-save_webapp_prefs :
      (v w : WebappView) (item : Option Text)
      → ((p : WebappPrefs) → parse (write p) ≡ some p)
      → ((p : WebappPrefs) → is_blank (write p) ≡ false)
      → is_blank v.view_mode ≡ false
      → is_blank v.filter ≡ false
      → (v.size == 0) ≡ false
      → load_webapp_prefs (save_webapp_prefs true v item) w ≡ v
  unfolding load_webapp_prefs save_webapp_prefs apply_webapp_prefs prefs_of_view
  load-save_webapp_prefs v w item parse-write full mode chip size =
      rw (full (prefs_of_view v), parse-write (prefs_of_view v), mode, chip, size) refl
