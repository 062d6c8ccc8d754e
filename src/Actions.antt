-- ===== src/Actions.antt =====
-- What the buttons of the page ask for: the handler of `data-action`, from the name of the action and
-- the other attributes of its button to the call that it makes. The actions whose code stands in the
-- handler itself (those of the web apps, DNS checks and ports, of the sidebar, and `clear-logs`,
-- `clear-log-dates` and `log-jump`) are not among them.
pub mod Commands
pub mod Laws
use domain_ssl_checker.Actions.Commands.{
  Dataset, TemplateType, DomainCommand, Command, ShownPages, add_domain, back_to_top, bulk_check,
  bulk_compare, bulk_delete, bulk_export, bulk_notes, bulk_revoke_api_keys, bulk_tags, check_all,
  clear_domain_filters, clear_user_filters, close_bulk_notes, close_bulk_tags, close_cert_modal,
  close_chg_pw, close_compare_modal, close_confirm_modal, close_create_pane, close_domain_modal,
  close_import_modal, close_quick_add, close_schedule_card, close_upload_pane, close_user_modal,
  create_backup_with_notes, delete_domain, delete_user, deselect_all, do_import, download_template,
  export_csv, export_domains, export_settings, filter_domains, filter_webapps, for_list, go_domain,
  go_to, go_to_last, go_to_view, import_domains, import_settings, list_template, load_backups_view,
  log_next, log_prev, logout, manual_check, open_cert_modal, open_chg_pw, open_create_pane,
  open_edit_modal, open_edit_user, open_quick_add, open_upload_pane, open_user_modal, print_view,
  quick_check, refresh_domains, refresh_logs, refresh_users, reload_api_keys,
  reload_email_templates, resend_invite, save_backup_schedule, submit_bulk_notes, submit_bulk_tags,
  test_smtp, test_webhook, toggle_columns, toggle_schedule_card, toggle_theme, toggle_user_active,
  toggle_view, upload_and_restore_backup, webapp_template,
}
use domain_ssl_checker.Domains.{ListType, full, ssl_only}
use domain_ssl_checker.Forms.Numbers.{parse_int}
use domain_ssl_checker.Base.{
  Text, ℕ, Option, String, ℤ, if◌then◌else◌, none, Bool, str_eq, some, ◌-◌, text_eq, ◌+◌, codes,
  ◌||◌,
}

-- The actions of the lists of domains and certificates.
unfoldable pub dispatch_list : String → ShownPages → Option Command
dispatch_list a pg =
    if str_eq a "check-all-full"
    then some (for_list full check_all)
    else if str_eq a "check-all-ssl"
    then some (for_list ssl_only check_all)
    else if str_eq a "add-domain-full"
    then some (for_list full add_domain)
    else if str_eq a "add-domain-ssl"
    then some (for_list ssl_only add_domain)
    else if str_eq a "bulk-check"
    then some (for_list full bulk_check)
    else if str_eq a "bulk-delete"
    then some (for_list full bulk_delete)
    else if str_eq a "bulk-deselect"
    then some (for_list full deselect_all)
    else if str_eq a "bulk-export"
    then some (for_list full bulk_export)
    else if str_eq a "bulk-notes"
    then some (for_list full bulk_notes)
    else if str_eq a "ssl-bulk-check"
    then some (for_list ssl_only bulk_check)
    else if str_eq a "ssl-bulk-delete"
    then some (for_list ssl_only bulk_delete)
    else if str_eq a "ssl-bulk-deselect"
    then some (for_list ssl_only deselect_all)
    else if str_eq a "ssl-bulk-export"
    then some (for_list ssl_only bulk_export)
    else if str_eq a "ssl-bulk-notes"
    then some (for_list ssl_only bulk_notes)
    else if str_eq a "toggle-view-full"
    then some (for_list full toggle_view)
    else if str_eq a "toggle-view-ssl"
    then some (for_list ssl_only toggle_view)
    else if str_eq a "download-template"
    then some (download_template (list_template full))
    else if str_eq a "download-template-ssl"
    then some (download_template (list_template ssl_only))
    else if str_eq a "download-template-webapp"
    then some (download_template webapp_template)
    else if str_eq a "toggle-columns-full"
    then some (for_list full toggle_columns)
    else if str_eq a "toggle-columns-ssl"
    then some (for_list ssl_only toggle_columns)
    else if str_eq a "bulk-compare"
    then some (for_list full bulk_compare)
    else if str_eq a "ssl-bulk-compare"
    then some (for_list ssl_only bulk_compare)
    else if str_eq a "bulk-tags"
    then some (for_list full bulk_tags)
    else if str_eq a "ssl-bulk-tags"
    then some (for_list ssl_only bulk_tags)
    else if str_eq a "page-first-full"
    then some (for_list full (go_to 1))
    else if str_eq a "page-prev-full"
    then some (for_list full (go_to (pg.full_page - 1)))
    else if str_eq a "page-next-full"
    then some (for_list full (go_to (pg.full_page + 1)))
    else if str_eq a "page-last-full"
    then some (for_list full go_to_last)
    else if str_eq a "page-first-ssl"
    then some (for_list ssl_only (go_to 1))
    else if str_eq a "page-prev-ssl"
    then some (for_list ssl_only (go_to (pg.ssl_page - 1)))
    else if str_eq a "page-next-ssl"
    then some (for_list ssl_only (go_to (pg.ssl_page + 1)))
    else if str_eq a "page-last-ssl"
    then some (for_list ssl_only go_to_last)
    else none

unfoldable pub dispatch_settings : String → Option Command
dispatch_settings a =
    if str_eq a "export-settings"
    then some export_settings
    else if str_eq a "import-settings"
    then some import_settings
    else if str_eq a "bulk-revoke-apikeys"
    then some bulk_revoke_api_keys
    else if str_eq a "refresh-api-keys"
    then some reload_api_keys
    else if str_eq a "refresh-backups-view"
    then some load_backups_view
    else if str_eq a "create-backup-view" || str_eq a "open-backup-create"
    then some open_create_pane
    else if str_eq a "close-backup-create"
    then some close_create_pane
    else if str_eq a "open-backup-upload"
    then some open_upload_pane
    else if str_eq a "close-backup-upload"
    then some close_upload_pane
    else if str_eq a "toggle-backup-schedule"
    then some toggle_schedule_card
    else if str_eq a "close-backup-schedule"
    then some close_schedule_card
    else if str_eq a "confirm-create-backup"
    then some create_backup_with_notes
    else if str_eq a "confirm-upload-backup"
    then some upload_and_restore_backup
    else if str_eq a "save-backup-schedule"
    then some save_backup_schedule
    else if str_eq a "refresh-email-templates"
    then some reload_email_templates
    else if str_eq a "toggle-quickadd"
    then some open_quick_add
    else if str_eq a "close-quickadd-modal"
    then some close_quick_add
    else if str_eq a "change-password"
    then some open_chg_pw
    else if str_eq a "close-chgpw-modal"
    then some close_chg_pw
    else none

-- The other actions, with the attributes of the button.
unfoldable pub dispatch_page : String → Dataset → Option Command
dispatch_page a d =
    let id = parse_int d.id in
    if str_eq a "toggle-theme"
    then some toggle_theme
    else if str_eq a "logout"
    then some logout
    else if str_eq a "refresh-domains"
    then some refresh_domains
    else if str_eq a "export-csv"
    then some export_csv
    else if str_eq a "export"
    then some export_domains
    else if str_eq a "import"
    then some import_domains
    else if str_eq a "test-smtp"
    then some test_smtp
    else if str_eq a "add-user"
    then some open_user_modal
    else if str_eq a "refresh-users"
    then some refresh_users
    else if str_eq a "clear-user-filters"
    then some clear_user_filters
    else if str_eq a "toggle-user-active"
    then some (toggle_user_active id d.name (text_eq d.active (codes "1")))
    else if str_eq a "resend-invite"
    then some (resend_invite id d.name)
    else if str_eq a "refresh-logs"
    then some refresh_logs
    else if str_eq a "log-prev"
    then some log_prev
    else if str_eq a "log-next"
    then some log_next
    else if str_eq a "close-domain-modal"
    then some close_domain_modal
    else if str_eq a "close-user-modal"
    then some close_user_modal
    else if str_eq a "close-confirm-modal"
    then some close_confirm_modal
    else if str_eq a "close-cert-modal"
    then some close_cert_modal
    else if str_eq a "close-import-modal"
    then some close_import_modal
    else if str_eq a "do-import"
    then some do_import
    else if str_eq a "manual-check"
    then some (manual_check id)
    else if str_eq a "edit-domain"
    then some (open_edit_modal id)
    else if str_eq a "delete-domain"
    then some (delete_domain id d.name)
    else if str_eq a "edit-user"
    then some (open_edit_user id d.name d.role d.email)
    else if str_eq a "delete-user"
    then some (delete_user id d.name)
    else if str_eq a "view-cert"
    then some (open_cert_modal id)
    else if str_eq a "clear-domain-filters"
    then some (clear_domain_filters d.type)
    else if str_eq a "submit-bulk-notes"
    then some submit_bulk_notes
    else if str_eq a "close-bulk-notes"
    then some close_bulk_notes
    else if str_eq a "submit-bulk-tags"
    then some submit_bulk_tags
    else if str_eq a "close-bulk-tags"
    then some close_bulk_tags
    else if str_eq a "close-compare-modal"
    then some close_compare_modal
    else if str_eq a "print-view"
    then some print_view
    else if str_eq a "filter-domains"
    then some (filter_domains d.type d.status)
    else if str_eq a "filter-webapps"
    then some (filter_webapps d.webapp_filter)
    else if str_eq a "back-to-top"
    then some back_to_top
    else if str_eq a "go-dashboard"
    then some (go_to_view "dashboard")
    else if str_eq a "go-webapps"
    then some (go_to_view "webapps")
    else if str_eq a "go-domain"
    then some (go_domain id)
    else if str_eq a "quick-check"
    then some (quick_check id)
    else if str_eq a "test-webhook"
    then some (test_webhook d.webhook_type)
    else dispatch_settings a

-- The names are all different, so the order of the tests does not matter.
unfoldable pub dispatch : String → Dataset → ShownPages → Option Command
unfolding dispatch_list dispatch_page
dispatch a d pg = elim (dispatch_list a pg) [ none ↦ dispatch_page a d | some c ↦ some c ]
