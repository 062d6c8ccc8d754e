-- ===== src/Settings/Trials.antt =====
-- The trials of the settings, `testSmtp` and `testWebhook`, and the import of the settings.
use domain_ssl_checker.Base.{
  Text, String, Bool, List, Option, ℕ, true, false, none, some, [], ◌∷◌, ◌++◌, map, if◌then◌else◌,
  codes, ◌≡◌, refl, suc, arith,
}

-- A line of the log, by its class
pub data LogClass : Type 0 where
  wait ok fail : LogClass

pub record SmtpStep : Type 0 where
  pub message : Text
  pub passed : Bool

-- The answer: the steps, if it has them, or the message of an error
pub data SmtpAnswer : Type 0 where
  tried : Option (List SmtpStep) → SmtpAnswer
  refused : Text → SmtpAnswer

-- The log, whether the dot is that of a success, the text beside it, and the button
pub record SmtpShown : Type 0 where
  pub log : List (LogClass × Text)
  pub success : Option Bool
  pub status_text : Text
  pub button_loading : Bool

abbrev pub step_line : SmtpStep → LogClass × Text
step_line s = (if s.passed then ok else fail, s.message)

-- What stands before the answer
unfoldable pub start_smtp_test : SmtpShown → SmtpShown
start_smtp_test s = record s {
  log = (wait, codes "Resolving SMTP server...") ∷ [];
  button_loading = true;
}

abbrev pub answer_lines : Option (List SmtpStep) → List (LogClass × Text)
answer_lines none = (ok, codes "Test SMTP sent! Check your inbox.") ∷ []
answer_lines (some steps) = map step_line steps

unfoldable pub receive_smtp : SmtpAnswer → SmtpShown → SmtpShown
receive_smtp (tried steps) s = record {
  log = s.log ++ answer_lines steps;
  success = some true;
  status_text = codes "Sent successfully";
  button_loading = false;
}
receive_smtp (refused message) s = record {
  log = s.log ++ (fail, codes "Failed: " ++ message) ∷ [];
  success = some false;
  status_text = codes "Failed: " ++ message;
  button_loading = false;
}

-- `testSmtp`
unfoldable pub test_smtp : SmtpAnswer → SmtpShown → SmtpShown
test_smtp a s = receive_smtp a (start_smtp_test s)

abbrev pub failed_lines : List (LogClass × Text) → ℕ
failed_lines [] = 0
failed_lines ((fail, t) ∷ ls) = suc (failed_lines ls)
failed_lines ((wait, t) ∷ ls) = failed_lines ls
failed_lines ((ok, t) ∷ ls) = failed_lines ls

abbrev pub failed_steps : List SmtpStep → ℕ
failed_steps [] = 0
failed_steps (s ∷ ss) = if s.passed then failed_steps ss else suc (failed_steps ss)

failed_lines-steps : (ss : List SmtpStep) → failed_lines (map step_line ss) ≡ failed_steps ss
failed_lines-steps [] = refl
failed_lines-steps (s ∷ ss) = ground (arith, failed_lines-steps ss)

-- A test with steps is reported as sent with success however many of them failed, each of which has its
-- line in the log.
pub test_smtp-steps :
    (steps : List SmtpStep) (s : SmtpShown)
    → let shown = test_smtp (tried (some steps)) s in
      (shown.success ≡ some true)
      × (shown.button_loading ≡ false)
      × (failed_lines shown.log ≡ failed_steps steps)
unfolding test_smtp receive_smtp start_smtp_test
test_smtp-steps steps s = (refl, refl, failed_lines-steps steps)

pub data WebhookEffect : Type 0 where
  -- `POST /api/settings/test-webhook`
  sent_webhook : String → Text → WebhookEffect
  -- The toasts
  url_first webhook_sent : String → WebhookEffect

-- "✓ Sent", and "✗ " with the message, which take the place of "Sending..."
pub data WebhookResult : Type 0 where
  sent : WebhookResult
  failed : Text → WebhookResult

-- `testWebhook`: the url of its field, and the message of the error where there is one; the button is
-- free again after each answer.
unfoldable pub test_webhook :
    String → Text → Option Text → Option WebhookResult → Option WebhookResult × List WebhookEffect
test_webhook type [] error shown = (shown, url_first type ∷ [])
test_webhook type (c ∷ cs) none shown =
    (some sent, sent_webhook type (c ∷ cs) ∷ webhook_sent type ∷ [])
test_webhook type (c ∷ cs) (some e) shown = (some (failed e), sent_webhook type (c ∷ cs) ∷ [])

pub data ImportSettingsEffect (D : Type 0) : Type 0 where
  -- `POST /api/settings/import`
  sent_import : D → ImportSettingsEffect D
  -- The toasts, the removal of `vigil-settings`, and the timer that loads the page again
  imported import_failed invalid_file cache_removed page_reloads : ImportSettingsEffect D

-- The file of `settings-import-input`, as `JSON.parse` takes it: `none` where it is no JSON.
unfoldable pub import_settings : {D : Type 0} → Option D → Bool → List (ImportSettingsEffect D)
import_settings none taken = invalid_file ∷ []
import_settings (some d) taken =
    sent_import d
    ∷ (if taken then imported ∷ cache_removed ∷ page_reloads ∷ [] else import_failed ∷ [])
