-- ===== src/Settings/Others.antt =====
-- The submissions of the webhooks and of the status page, and `reset-smtp`.
use domain_ssl_checker.Settings.{
  text, flag, number, string, put_form, button_busy, button_free, settings_saved, save_failed,
  Value, SettingsState, Stored, Form, update_unsaved, SaveEffect, value_or_list, keep_original,
  form_data,
}
use domain_ssl_checker.Base.{
  List, String, ◌∷◌, Bool, Option, [], if◌then◌else◌, map, str_eq, some, codes, ◌||◌, false, none,
}

abbrev pub webhook_inputs : List String
webhook_inputs =
    "slack_webhook_url" ∷ "slack_enabled" ∷ "zulip_webhook_url" ∷ "zulip_enabled"
    ∷ "discord_webhook_url" ∷ "discord_enabled" ∷ "telegram_bot_token" ∷ "telegram_chat_id"
    ∷ "telegram_enabled" ∷ "teams_webhook_url" ∷ "teams_enabled" ∷ "generic_webhooks" ∷ []

abbrev pub status_page_inputs : List String
status_page_inputs = "status_page_enabled" ∷ "status_page_title" ∷ []

-- `checked ? 1 : 0`, or the text
abbrev pub sent_value : Value → Stored
sent_value (text t) = string t
sent_value (flag b) = number (if b then 1 else 0)

abbrev pub sent_fields : List String → Form → List (String × Stored)
sent_fields keys form = map (λ k. (k, sent_value (value_or_list k (form k)))) keys

-- The submission of the webhooks, and of the status page: of the inputs `keys`.
unfoldable pub submit_form : List String → Bool → SettingsState → SettingsState × List SaveEffect
submit_form keys ok s =
    if ok
    then (
      keep_original (form_data s.form) s,
      button_busy ∷ put_form (sent_fields keys s.form) ∷ settings_saved ∷ button_free ∷ [],
    )
    else (s, button_busy ∷ put_form (sent_fields keys s.form) ∷ save_failed ∷ button_free ∷ [])

-- What `reset-smtp` sets.
abbrev pub smtp_default : String → Option Value
smtp_default key =
    if str_eq key "smtp_server"
    then some (text (codes "smtp.gmail.com"))
    else if str_eq key "smtp_port"
    then some (text (codes "587"))
    else if str_eq key "smtp_email" || str_eq key "alert_emails"
    then some (text [])
    else if str_eq key "ssl_alert_threshold" || str_eq key "domain_alert_threshold"
    then some (text (codes "30"))
    else if str_eq key "smtp_enabled"
    then some (flag false)
    else none

unfoldable pub reset_smtp : SettingsState → SettingsState
reset_smtp s = update_unsaved (record s {
  form = λ key. elim (smtp_default key) [ none ↦ s.form key | some v ↦ v ];
  password = [];
})
