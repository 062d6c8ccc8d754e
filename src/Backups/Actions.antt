-- ===== src/Backups/Actions.antt =====
-- The actions on backups: the selection, create, restore, upload, delete, and the schedule.
use domain_ssl_checker.Base.{
  filter, Option, List, Text, Bool, false, ℕ, any, not, if◌then◌else◌, [], ℤ, ◌∷◌, text_eq, ◌++◌,
  ltb, true, length, trim, some, none, ◌==◌, negsuc, pos, leb, ◌&&◌,
}
use domain_ssl_checker.Forms.Numbers.{parse_int, is_blank}

pub data BackupEffect : Type 0 where
  button_busy button_free : BackupEffect
  -- `POST /api/backups`, with notes if there are any
  sent_create : Option Text → BackupEffect
  -- `POST /api/backups/restore`, `DELETE /api/backups/file`, `POST /api/backups/bulk-delete`
  sent_restore sent_delete : Text → BackupEffect
  sent_bulk_delete : List Text → BackupEffect
  -- `POST /api/backups/upload`
  sent_upload : BackupEffect
  -- `POST /api/backups/schedule`
  sent_schedule : ℕ → ℕ → ℕ → BackupEffect
  -- The toasts
  name_differs no_file invalid_hour invalid_minute invalid_retention request_failed : BackupEffect
  created restored deleted schedule_saved : BackupEffect
  bulk_deleted : ℕ → BackupEffect
  -- `loadBackupsViewList`, `loadBackupDbInfo`, and the reload of the page after a restore
  list_reloaded info_reloaded page_reloaded : BackupEffect

-- The entries of the page that the actions use.
pub record BackupPane : Type 0 where
  -- `_backupState.selected`
  pub selected : List Text
  -- The file name in the restore pane, what is typed under it, and whether the pane is shown
  pub restore_name : Text
  pub typed : Text
  pub restore_open : Bool
  pub create_open : Bool
  pub schedule_open : Bool

abbrev pub has_file : Text → List Text → Bool
has_file f fs = any (text_eq f) fs

abbrev pub without : Text → List Text → List Text
without f fs = filter (λ g. not (text_eq f g)) fs

-- The box of a backup
unfoldable pub select_backup : Bool → Text → BackupPane → BackupPane
select_backup checked f s = record s {
  selected =
      if checked
      then (if has_file f s.selected then s.selected else s.selected ++ f ∷ [])
      else without f s.selected;
}

-- `_updateBackupBulkDeleteBtn`: the number on the button, which is shown for some.
unfoldable pub bulk_button : BackupPane → Option ℕ
bulk_button s = if ltb 0 (length s.selected) then some (length s.selected) else none

-- `restore-backup` and `close-backup-restore`
unfoldable pub open_restore : Text → BackupPane → BackupPane
open_restore f s = record s { restore_name = f; typed = []; restore_open = true }

unfoldable pub close_restore : BackupPane → BackupPane
close_restore s = record s { restore_open = false }

-- `confirm-restore-backup`; a success leaves the button busy until the page is loaded again.
unfoldable pub confirm_restore : Bool → BackupPane → BackupPane × List BackupEffect
confirm_restore ok s =
    if not (text_eq (trim s.typed) s.restore_name)
    then (s, name_differs ∷ [])
    else if ok
    then (s, button_busy ∷ sent_restore s.restore_name ∷ restored ∷ page_reloaded ∷ [])
    else (
      close_restore s,
      button_busy ∷ sent_restore s.restore_name ∷ request_failed ∷ button_free ∷ [],
    )

-- `delete-backup`, after the question
unfoldable pub delete_backup : Bool → Bool → Text → BackupPane → BackupPane × List BackupEffect
delete_backup confirmed ok f s =
    if not confirmed
    then (s, [])
    else if ok
    then (
      record s { selected = without f s.selected },
      sent_delete f ∷ deleted ∷ list_reloaded ∷ [],
    )
    else (s, sent_delete f ∷ request_failed ∷ [])

-- `delete-selected-backups`
unfoldable pub delete_selected : Bool → Bool → BackupPane → BackupPane × List BackupEffect
delete_selected confirmed ok s =
    if length s.selected == 0
    then (s, [])
    else if not confirmed
    then (s, [])
    else if ok
    then (
      record s { selected = [] },
      button_busy
          ∷ sent_bulk_delete s.selected
          ∷ bulk_deleted (length s.selected)
          ∷ list_reloaded
          ∷ button_free
          ∷ [],
    )
    else (s, button_busy ∷ sent_bulk_delete s.selected ∷ request_failed ∷ button_free ∷ [])

-- `createBackupWithNotes`
unfoldable pub create_backup : Bool → Text → BackupPane → BackupPane × List BackupEffect
create_backup ok notes s =
    let request = sent_create (if is_blank (trim notes) then none else some (trim notes)) in
    if ok
    then (
      record s { create_open = false },
      button_busy ∷ request ∷ created ∷ list_reloaded ∷ info_reloaded ∷ button_free ∷ [],
    )
    else (s, button_busy ∷ request ∷ request_failed ∷ button_free ∷ [])

-- `uploadAndRestoreBackup`, where the answer is a success or not
unfoldable pub upload_backup : Bool → Bool → Bool → List BackupEffect
upload_backup has_upload confirmed ok =
    if not has_upload
    then no_file ∷ []
    else if not confirmed
    then []
    else if ok
    then button_busy ∷ sent_upload ∷ restored ∷ page_reloaded ∷ []
    else button_busy ∷ sent_upload ∷ request_failed ∷ button_free ∷ []

-- `isNaN(n) || n < low || n > high`, for a bound `low` of at least 0
abbrev pub in_range : ℕ → ℕ → Option ℤ → Option ℕ
in_range low high none = none
in_range low high (some (negsuc n)) = none
in_range low high (some (pos n)) = if leb low n && leb n high then some n else none

abbrev pub schedule_of :
    Bool → Option ℕ → Option ℕ → Option ℕ → BackupPane → BackupPane × List BackupEffect
schedule_of ok none m n s = (s, invalid_hour ∷ [])
schedule_of ok (some h) none n s = (s, invalid_minute ∷ [])
schedule_of ok (some h) (some m) none s = (s, invalid_retention ∷ [])
schedule_of true (some h) (some m) (some n) s = (
  record s { schedule_open = false },
  button_busy ∷ sent_schedule h m n ∷ schedule_saved ∷ info_reloaded ∷ button_free ∷ [],
)
schedule_of false (some h) (some m) (some n) s =
    (s, button_busy ∷ sent_schedule h m n ∷ request_failed ∷ button_free ∷ [])

-- `saveBackupSchedule`, with the texts of its three inputs
unfoldable pub save_schedule :
    Bool → Text → Text → Text → BackupPane → BackupPane × List BackupEffect
save_schedule ok hour minute retention s =
    schedule_of ok (in_range 0 23 (parse_int hour)) (in_range 0 59 (parse_int minute))
      (in_range 1 365 (parse_int retention)) s
