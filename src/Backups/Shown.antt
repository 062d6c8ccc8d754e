-- ===== src/Backups/Shown.antt =====
-- What the view of the backups shows: `loadBackupsView`, `loadBackupsViewList`, `renderBackupPage` and
-- `_updateBackupPagination`, with a row for each backup and without its texts.
pub mod Laws
use domain_ssl_checker.Platform.{Platform}
use domain_ssl_checker.Backups.{
  Backup, BackupState, backup_max_page, backup_page_items, receive_backups, reset_backup_state,
}
use domain_ssl_checker.Base.{
  ℕ, Text, Option, Bool, List, true, false, some, none, [], ◌∷◌, ◌==◌, ◌&&◌, ◌+◌, ◌-◌, ◌*◌,
  if◌then◌else◌, leb, min, length, truthy,
}

-- `backups-view-list`
pub data BackupList : Type 0 where
  loading_backups no_backups_yet load_failed : BackupList
  none_match : Text → BackupList
  backup_rows : List Backup → BackupList

-- `backup-count-label`: "3 backups", or "2 of 3 backups"
pub data CountLabel : Type 0 where
  all_backups : ℕ → CountLabel
  some_backups : ℕ → ℕ → CountLabel

pub record BackupBar : Type 0 where
  pub is_shown : Bool
  -- "Showing start–end of total"
  pub start : ℕ
  pub end : ℕ
  pub total : ℕ
  pub prev_disabled : Bool
  pub next_disabled : Bool
  -- The number in the input of the page, and its greatest one
  pub jump : ℕ
  pub jump_max : ℕ

pub record BackupView : Type 0 where
  pub body : BackupList
  pub label : CountLabel
  pub bar : BackupBar

abbrev pub some_of : BackupState → CountLabel
some_of s = some_backups (length s.filtered) (length s.backups)

-- `_updateBackupPagination`; a bar that is hidden keeps its texts.
unfoldable pub update_backup_pagination : BackupState → BackupView → BackupView
update_backup_pagination s v =
    if leb (length s.filtered) s.per_page
    then record v { bar = record v.bar { is_shown = false } }
    else record v {
      label = some_of s;
      bar = record {
        is_shown = true;
        start = (s.page - 1) * s.per_page + 1;
        end = min (s.page * s.per_page) (length s.filtered);
        total = length s.filtered;
        prev_disabled = leb s.page 1;
        next_disabled = leb (backup_max_page s) s.page;
        jump = s.page;
        jump_max = backup_max_page s;
      };
    }

-- `renderBackupPage`
unfoldable pub render_backup_page : BackupState → BackupView → BackupView
unfolding update_backup_pagination
render_backup_page s v =
    if length s.backups == 0
    then v
    else update_backup_pagination s (record v { body = backup_rows (backup_page_items s) })

-- The list and the label, once the backups are searched.
unfoldable pub list_shown : BackupState → BackupView → BackupView
list_shown s v =
    if length s.filtered == 0 && truthy (some s.search)
    then record v { body = none_match s.search; label = all_backups (length s.backups) }
    else if length s.backups == 0
    then record v { body = no_backups_yet; label = all_backups 0 }
    else record v { body = backup_rows (backup_page_items s); label = some_of s }

module _ (p : Platform) where
  -- The answer to `GET /api/backups`, `none` where it failed
  unfoldable pub receive_backup_list :
      Option (List Backup) → BackupState × BackupView → BackupState × BackupView
  receive_backup_list none (s, v) = (s, record v { body = load_failed })
  receive_backup_list (some bs) (s, v) =
      let searched = receive_backups p bs s in
      (searched, update_backup_pagination searched (list_shown searched v))

-- `loadBackupsView`, before the answers
unfoldable pub load_backups_view : BackupState × BackupView → BackupState × BackupView
load_backups_view (s, v) = (reset_backup_state s, record v { body = loading_backups })
