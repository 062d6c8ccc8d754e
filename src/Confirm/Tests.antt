-- ===== src/Confirm/Tests.antt =====
-- The theorem on the confirmed delete, at the first of two rows.
use mathlib.Core.List.{Perm}
use domain_ssl_checker.Base.{ℕ, length, none, ◌≡◌, codes, false, suc, ◌∷◌, some, [], true, refl}
use domain_ssl_checker.Confirm.{ConfirmState, confirm_delete, click_delete}
use domain_ssl_checker.Domains.{Domain}
use domain_ssl_checker.Confirm.Laws.{has_log, click_delete_lem}

abbrev deleted_row : ℕ → Domain
deleted_row id = record {
  id = id;
  url = codes "a.org";
  ssl_status = none;
  domain_status = none;
  ssl_days_left = none;
  domain_days_left = none;
  ssl_issuer = none;
  domain_registrar = none;
  manual_registrar = none;
  manual_expiry_date = none;
  last_checked = none;
  notes = none;
}

abbrev before_delete : ConfirmState
before_delete = record {
  target = none;
  type = none;
  disabled = false;
  asks_name = false;
  is_open = false;
  cached = deleted_row 1 ∷ deleted_row 2 ∷ [];
}

abbrev deletes_first : ConfirmState
deletes_first = (confirm_delete 1 (codes "a.org") (some "domain") (codes "ann") before_delete).0

click_delete_example :
    (length before_delete.cached ≡ suc (length (click_delete true deletes_first).0.cached))
    × Perm (click_delete false deletes_first).0.cached before_delete.cached
    × (has_log "domain" (codes "a.org") (click_delete true deletes_first).1 ≡ true)
    × (has_log "domain" (codes "a.org") (click_delete false deletes_first).1 ≡ true)
    × ((click_delete true (click_delete false deletes_first).0).1 ≡ [])
click_delete_example =
    click_delete_lem before_delete 1 (codes "a.org") (codes "ann") false true refl
