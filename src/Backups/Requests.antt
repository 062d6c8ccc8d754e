-- ===== src/Backups/Requests.antt =====
-- What the actions on backups ask the server for.
use domain_ssl_checker.Backups.Actions.{
  confirm_restore, delete_selected, save_schedule, schedule_of, sent_restore, sent_schedule,
  sent_bulk_delete, BackupPane, BackupEffect, in_range,
}
use domain_ssl_checker.Base.{
  ℕ, Option, Bool, ℤ, text_eq, trim, ◌≡◌, leb, some, ◌&&◌, true, ltb, negsuc, length, pos, none,
  Bool-cases, arith, all, inl, Text, inr, refl, false, ◌==◌,
}
use domain_ssl_checker.Forms.Numbers.{parse_int}

-- The request is one that the page should make: a restore of the file that was typed, a schedule
-- within the bounds, and a delete of some file.
abbrev pub is_allowed : BackupPane → BackupEffect → Bool
is_allowed s (sent_restore f) = text_eq (trim s.typed) f
is_allowed s (sent_schedule h m n) = leb h 23 && leb m 59 && leb 1 n && leb n 365
is_allowed s (sent_bulk_delete fs) = ltb 0 (length fs)
is_allowed s e = true

abbrev pub in_bounds : ℕ → ℕ → Option ℕ → Bool
in_bounds low high none = true
in_bounds low high (some n) = leb low n && leb n high

in_range_lem : (low high : ℕ) (o : Option ℤ) → in_bounds low high (in_range low high o) ≡ true
in_range_lem low high none = refl
in_range_lem low high (some (negsuc k)) = refl
in_range_lem low high (some (pos k)) = elim (Bool-cases (leb low k && leb k high)) [
  | inl e ↦ rw e e
  | inr e ↦ rw e refl
]

together :
    (a b c d e f : Bool)
    → (a && b) ≡ true
    → (c && d) ≡ true
    → (e && f) ≡ true
    → (b && d && e && f) ≡ true
together a b c d e f g h i = ground arith

schedule_of_lem :
    (ok : Bool) (h m n : Option ℕ) (s : BackupPane)
    → in_bounds 0 23 h ≡ true
    → in_bounds 0 59 m ≡ true
    → in_bounds 1 365 n ≡ true
    → all (is_allowed s) (schedule_of ok h m n s).1 ≡ true
schedule_of_lem ok none m n s a b c = refl
schedule_of_lem ok (some h) none n s a b c = refl
schedule_of_lem ok (some h) (some m) none s a b c = refl
schedule_of_lem true (some h) (some m) (some n) s a b c =
    rw (together (leb 0 h) (leb h 23) (leb 0 m) (leb m 59) (leb 1 n) (leb n 365) a b c) refl
schedule_of_lem false (some h) (some m) (some n) s a b c =
    rw (together (leb 0 h) (leb h 23) (leb 0 m) (leb m 59) (leb 1 n) (leb n 365) a b c) refl

confirm_restore_lem :
    (ok : Bool) (s : BackupPane) → all (is_allowed s) (confirm_restore ok s).1 ≡ true
unfolding confirm_restore
confirm_restore_lem true s = elim (Bool-cases (text_eq (trim s.typed) s.restore_name)) [
  | inl e ↦ rw (e, e) refl
  | inr e ↦ rw e refl
]
confirm_restore_lem false s = elim (Bool-cases (text_eq (trim s.typed) s.restore_name)) [
  | inl e ↦ rw (e, e) refl
  | inr e ↦ rw e refl
]

some_file : (n : ℕ) → (n == 0) ≡ false → ltb 0 n ≡ true
some_file n h = ground arith

delete_selected_lem :
    (confirmed ok : Bool) (s : BackupPane)
    → all (is_allowed s) (delete_selected confirmed ok s).1 ≡ true
unfolding delete_selected
delete_selected_lem false ok s = elim (Bool-cases (length s.selected == 0)) [
  | inl e ↦ rw e refl
  | inr e ↦ rw e refl
]
delete_selected_lem true true s = elim (Bool-cases (length s.selected == 0)) [
  | inl e ↦ rw e refl
  | inr e ↦ rw (e, some_file (length s.selected) e) refl
]
delete_selected_lem true false s = elim (Bool-cases (length s.selected == 0)) [
  | inl e ↦ rw e refl
  | inr e ↦ rw (e, some_file (length s.selected) e) refl
]

-- A restore is asked for only under the name that was typed, a schedule only with an hour up to 23,
-- a minute up to 59 and 1 to 365 backups to keep, whatever the inputs hold, and a bulk delete only
-- for some file.
pub backup_requests :
    (confirmed ok : Bool) (hour minute retention : Text) (s : BackupPane)
    → (all (is_allowed s) (confirm_restore ok s).1 ≡ true)
      × (all (is_allowed s) (save_schedule ok hour minute retention s).1 ≡ true)
      × (all (is_allowed s) (delete_selected confirmed ok s).1 ≡ true)
unfolding save_schedule
backup_requests confirmed ok hour minute retention s = (
  confirm_restore_lem ok s,
  schedule_of_lem ok _ _ _ s (in_range_lem 0 23 (parse_int hour))
      (in_range_lem 0 59 (parse_int minute)) (in_range_lem 1 365 (parse_int retention)),
  delete_selected_lem confirmed ok s,
)
