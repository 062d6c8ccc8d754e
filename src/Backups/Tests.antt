-- ===== src/Backups/Tests.antt =====
-- The theorems on the backups, at a list of eleven and at a filled pane.
use Prim.Native.Nat.{compare}
use domain_ssl_checker.Platform.{Platform}
use domain_ssl_checker.Paging.{page_count}
use domain_ssl_checker.Base.{
  List, String, map, some, arith, leb, ◌+◌, length, codes, none, ◌∷◌, [], all, true, false, ◌≡◌,
}
use domain_ssl_checker.Backups.Laws.{at_start}
use domain_ssl_checker.Backups.{
  Backup, receive_backups, filter_backups, searched_backups, no_backups, backup_page_items,
  backup_max_page,
}
use domain_ssl_checker.Backups.Shown.{
  BackupView, receive_backup_list, loading_backups, all_backups, backup_rows,
}
use domain_ssl_checker.Backups.Shown.Laws.{receive_backup_list_lem}
use domain_ssl_checker.Backups.Actions.{BackupPane, confirm_restore, save_schedule, delete_selected}
use domain_ssl_checker.Backups.Requests.{is_allowed, backup_requests}

abbrev backup_platform : Platform
backup_platform = record {
  lower = λ t. t;
  locale_compare = λ a b. compare (length a) (length b);
  time_of = length;
  midnight_of = length;
  now = 0;
}

abbrev backup : String → Backup
backup name = record { filename = codes name; notes = none }

abbrev eleven : List Backup
eleven = map backup ("a" ∷ "b" ∷ "c" ∷ "d" ∷ "e" ∷ "f" ∷ "g" ∷ "h" ∷ "i" ∷ "j" ∷ "k" ∷ [])

abbrev no_view : BackupView
no_view = record {
  body = loading_backups;
  label = all_backups 0;
  bar = record {
    is_shown = false;
    start = 0;
    end = 0;
    total = 0;
    prev_disabled = true;
    next_disabled = true;
    jump = 1;
    jump_max = 1;
  };
}

receive_backup_list_example :
    let (t, shown) = receive_backup_list backup_platform (some eleven) (no_backups, no_view) in
    let rows = backup_page_items t in
    (shown.body ≡ backup_rows rows)
    × (shown.bar.is_shown ≡ true)
    × (shown.bar.start + length rows ≡ shown.bar.end + 1)
    × (shown.bar.prev_disabled ≡ leb t.page 1)
    × (shown.bar.next_disabled ≡ leb (backup_max_page t) t.page)
unfolding receive_backups filter_backups searched_backups backup_max_page page_count
receive_backup_list_example =
    receive_backup_list_lem backup_platform eleven no_backups no_view at_start (omega arith)

abbrev typed_pane : BackupPane
typed_pane = record {
  selected = codes "a.db" ∷ [];
  restore_name = codes "b.db";
  typed = codes " b.db";
  restore_open = true;
  create_open = false;
  schedule_open = true;
}

backup_requests_example :
    (all (is_allowed typed_pane) (confirm_restore true typed_pane).1 ≡ true)
    × (all
          (is_allowed typed_pane)
          (save_schedule true (codes "3") (codes "30") (codes "7") typed_pane).1
        ≡ true)
    × (all (is_allowed typed_pane) (delete_selected true true typed_pane).1 ≡ true)
backup_requests_example = backup_requests true true (codes "3") (codes "30") (codes "7") typed_pane
