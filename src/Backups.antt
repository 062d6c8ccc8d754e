-- ===== src/Backups.antt =====
-- The list of backups: the state `_backupState`, its search and its pages.
pub mod Laws
pub mod Actions
pub mod Requests
pub mod Shown
mod Tests
use domain_ssl_checker.Platform.{Platform}
use domain_ssl_checker.Paging.{page_count, page_slice}
use domain_ssl_checker.Base.{
  filter, Text, List, [], ℕ, if◌then◌else◌, Option, length, Bool, trim, ltb, ℤ, includes, truthy,
  ◌-◌, ◌+◌, min, ◌||◌, some, ◌&&◌, negsuc, text_or, pos, max, none,
}

-- A row of `/api/backups`.
pub record Backup : Type 0 where
  pub filename : Text
  pub notes : Option Text

-- `_backupState`, without the selected files
pub record BackupState : Type 0 where
  pub backups : List Backup
  pub filtered : List Backup
  pub page : ℕ
  pub per_page : ℕ
  pub search : Text

-- `_resetBackupState`, on the entries that it sets.
unfoldable pub reset_backup_state : BackupState → BackupState
reset_backup_state s = record s { backups = []; filtered = []; page = 1; search = [] }

-- `_getBackupMaxPage`
unfoldable pub backup_max_page : BackupState → ℕ
backup_max_page s = page_count (length s.filtered) s.per_page

-- `_getBackupPageItems`
unfoldable pub backup_page_items : BackupState → List Backup
backup_page_items s = page_slice s.page s.per_page s.filtered

module _ (p : Platform) where
  abbrev pub matches_backup : Text → Backup → Bool
  matches_backup q b =
      includes (p.lower b.filename) q || truthy b.notes && includes (p.lower (text_or b.notes [])) q

  -- `s ? backups.filter(…) : backups.slice()`
  unfoldable pub searched_backups : Text → List Backup → List Backup
  searched_backups text bs =
      let q = trim (p.lower text) in if truthy (some q) then filter (matches_backup q) bs else bs

  abbrev pub clamp_backup_page : BackupState → BackupState
  clamp_backup_page s =
      if ltb (backup_max_page s) s.page then record s { page = backup_max_page s } else s

  -- `_filterBackups`
  unfoldable pub filter_backups : BackupState → BackupState
  filter_backups s = clamp_backup_page (record s { filtered = searched_backups s.search s.backups })

  -- The search box, before the list is asked for again.
  unfoldable pub search_backups : Text → BackupState → BackupState
  search_backups text s = filter_backups (record s { search = text; page = 1 })

  -- The list arrives.
  unfoldable pub receive_backups : List Backup → BackupState → BackupState
  receive_backups bs s = filter_backups (record s { backups = bs })

unfoldable pub backup_prev : BackupState → BackupState
backup_prev s = if ltb 1 s.page then record s { page = s.page - 1 } else s

unfoldable pub backup_next : BackupState → BackupState
backup_next s = if ltb s.page (backup_max_page s) then record s { page = s.page + 1 } else s

-- `val` is what `parseInt` reads: nothing, a number below 1, or a number from 1 on.
unfoldable pub backup_jump : Option ℤ → BackupState → BackupState
backup_jump none s = record s { page = min 1 (backup_max_page s) }
backup_jump (some (negsuc n)) s = record s { page = min 1 (backup_max_page s) }
backup_jump (some (pos n)) s = record s { page = min (max 1 n) (backup_max_page s) }

-- `_backupState` when the page is loaded.
abbrev pub no_backups : BackupState
no_backups = record { backups = []; filtered = []; page = 1; per_page = 10; search = [] }
