-- ===== src/Actions/Commands.antt =====
-- The commands that the buttons of the page give, and what they are read from.
use domain_ssl_checker.Domains.{ListType}
use domain_ssl_checker.Base.{Text, ℕ, Option, String, ℤ, Bool}

-- `btn.dataset`; a `data-id` is read by `parseInt`.
pub record Dataset : Type 0 where
  pub id : Text
  pub name : Text
  pub role : Text
  pub email : Text
  pub active : Text
  pub type : Text
  pub status : Text
  pub webapp_filter : Text
  pub webhook_type : Text

-- `downloadTemplate` has a third type.
pub data TemplateType : Type 0 where
  list_template : ListType → TemplateType
  webapp_template : TemplateType

pub data DomainCommand : Type 0 where
  check_all add_domain bulk_check bulk_delete deselect_all bulk_export bulk_notes : DomainCommand
  toggle_view toggle_columns bulk_compare bulk_tags : DomainCommand
  -- `goToPage(type, n)`, and `goToPage(type, totalPages(type))`
  go_to : ℕ → DomainCommand
  go_to_last : DomainCommand

-- A command for one of the two lists, or for the page.
pub data Command : Type 0 where
  for_list : ListType → DomainCommand → Command
  download_template : TemplateType → Command
  toggle_theme logout refresh_domains export_csv export_domains import_domains : Command
  test_smtp open_user_modal refresh_users clear_user_filters : Command
  toggle_user_active : Option ℤ → Text → Bool → Command
  resend_invite : Option ℤ → Text → Command
  refresh_logs : Command
  -- `logPage(-1)` and `logPage(1)`
  log_prev log_next : Command
  close_domain_modal close_user_modal close_confirm_modal close_cert_modal : Command
  close_import_modal do_import : Command
  manual_check open_edit_modal open_cert_modal go_domain quick_check : Option ℤ → Command
  delete_domain delete_user : Option ℤ → Text → Command
  open_edit_user : Option ℤ → Text → Text → Text → Command
  clear_domain_filters : Text → Command
  submit_bulk_notes close_bulk_notes submit_bulk_tags close_bulk_tags : Command
  close_compare_modal print_view : Command
  filter_domains : Text → Text → Command
  filter_webapps test_webhook : Text → Command
  -- `window.location.hash = view; activateView(view);`
  go_to_view : String → Command
  back_to_top export_settings import_settings bulk_revoke_api_keys : Command
  -- `loadApiKeys(true)` and `loadEmailTemplates(true)`
  reload_api_keys reload_email_templates : Command
  load_backups_view create_backup_with_notes upload_and_restore_backup : Command
  -- The panes of the backups, by their `display`; those that open are emptied.
  open_create_pane close_create_pane open_upload_pane close_upload_pane : Command
  toggle_schedule_card close_schedule_card : Command
  save_backup_schedule open_quick_add close_quick_add open_chg_pw close_chg_pw : Command

-- The pages that the two lists show, `_pagination.full.page` and `_pagination.ssl_only.page`, from 1.
pub record ShownPages : Type 0 where
  pub full_page : ℕ
  pub ssl_page : ℕ
