-- ===== src/Settings/Tests.antt =====
-- The theorems on the settings, at a form loaded with a port and changed in two fields.
use domain_ssl_checker.Settings.{
  text, flag, number, no_changes, SettingsState, ServerSettings, Form, form_data, populate,
  update_unsaved, submit_settings,
}
use domain_ssl_checker.Base.{
  [], if◌then◌else◌, false, str_eq, some, codes, true, none, ◌≡◌, ◌∷◌, refl,
}
use domain_ssl_checker.Settings.Delta.{text_of}
use domain_ssl_checker.Settings.Saved.{laid_over, submit_settings_lem}

abbrev blank_settings : SettingsState
blank_settings = record {
  form = λ key. text [];
  password = [];
  original = [];
  dirty = false;
  security_dirty = false;
  template_dirty = false;
  unsaved = false;
}

abbrev server_settings : ServerSettings
server_settings key = if str_eq key "smtp_port" then some (number 25) else none

abbrev loaded_settings : SettingsState
loaded_settings = populate server_settings blank_settings

abbrev edited : Form
edited key =
    if str_eq key "smtp_email"
    then text (codes "a@a.org")
    else if str_eq key "slack_enabled"
    then flag false
    else loaded_settings.form key

abbrev edited_settings : SettingsState
edited_settings = record loaded_settings { form = edited }

submit_settings_example :
    (text_of "smtp_email"
        (laid_over (submit_settings true true edited_settings).1 edited_settings.original)
      ≡ codes "a@a.org")
    × ((submit_settings true true (submit_settings true true edited_settings).0).1
        ≡ no_changes ∷ [])
    × ((submit_settings true false edited_settings).0 ≡ edited_settings)
unfolding form_data populate update_unsaved
submit_settings_example = submit_settings_lem true "smtp_email" edited_settings refl refl
