-- ===== src/Backups/Shown/Laws.antt =====
-- The numbers beside the rows of the backups.
use mathlib.Core.Path.{subst}
use domain_ssl_checker.Platform.{Platform}
use domain_ssl_checker.Paging.{page_slice, page_count}
use domain_ssl_checker.Paging.Cover.{length-page_slice}
use domain_ssl_checker.Domains.Pages.Laws.{last_page-starts}
use domain_ssl_checker.Backups.{
  Backup, BackupState, receive_backups, searched_backups, backup_page_items, backup_max_page,
}
use domain_ssl_checker.Backups.Laws.{
  searched_backups-nil, BackupReachable, BackupReachable-IsInRange, received, IsInRange,
}
use domain_ssl_checker.Backups.Shown.{
  BackupView, BackupBar, update_backup_pagination, backup_rows, receive_backup_list, list_shown,
}
use domain_ssl_checker.Base.{
  ℕ, List, Text, false, [], ◌∷◌, ◌==◌, sym, ap, ◌∙◌, ◌≡◌, ◌<◌, ◌≤◌, ◌+◌, ◌-◌, ◌*◌, min, length,
  true, some, refl, arith, suc, zero, leb,
}

-- A page in range shows as many rows as its numbers say.
slice-numbers :
    (page size : ℕ) (bs : List Backup)
    → 0 < size
    → 1 ≤ page
    → page ≤ page_count (length bs) size
    → 0 < length bs
    → (page - 1) * size + length (page_slice page size bs) ≡ min (page * size) (length bs)
slice-numbers zero size bs h k le pos = absurd (omega arith)
slice-numbers (suc i) size bs h k le pos =
    let n : ℕ = length bs in
    let starts : (page_count n size - 1) * size < n = last_page-starts n size pos h in
    let mono : (suc i - 1) * size ≤ (page_count n size - 1) * size = grind arith in
    let split : suc i * size ≡ (suc i - 1) * size + size = grind arith in
    rw (length-page_slice (suc i) size bs k) (omega arith)

-- With a row on more than one page, the rows, their label and the bar are shown.
abbrev pub bar_of : BackupState → BackupBar
bar_of t = record {
  is_shown = true;
  start = (t.page - 1) * t.per_page + 1;
  end = min (t.page * t.per_page) (length t.filtered);
  total = length t.filtered;
  prev_disabled = leb t.page 1;
  next_disabled = leb (backup_max_page t) t.page;
  jump = t.page;
  jump_max = backup_max_page t;
}

update-bar :
    (t : BackupState) (v : BackupView)
    → leb (length t.filtered) t.per_page ≡ false
    → ((update_backup_pagination t v).bar ≡ bar_of t)
      × ((update_backup_pagination t v).body ≡ v.body)
unfolding update_backup_pagination
update-bar t v e = rw e (refl, refl)

list-rows :
    (t : BackupState) (v : BackupView)
    → (length t.filtered == 0) ≡ false
    → (length t.backups == 0) ≡ false
    → (list_shown t v).body ≡ backup_rows (backup_page_items t)
unfolding list_shown
list-rows t v f b = rw f (rw b refl)

module _ (p : Platform) where
  -- Where something is found, there is something.
  found-some :
      (q : Text) (bs : List Backup)
      → 10 < length (searched_backups p q bs)
      → (length bs == 0) ≡ false
  found-some q [] h =
      absurd (subst (λ l. ¬ (10 < length l)) (sym (searched_backups-nil p q)) (λ k. omega arith) h)
  found-some q (b ∷ bs) h = ground arith

  shows-rows :
      (t : BackupState) (v : BackupView)
      → IsInRange p t
      → 10 < length t.filtered
      → let shown = update_backup_pagination t (list_shown t v) in
        (shown.body ≡ backup_rows (backup_page_items t)) × (shown.bar ≡ bar_of t)
  shows-rows t v r more =
      let some_rows =
        found-some t.search t.backups (subst (λ l. 10 < length l) r.is_searched more) in
      let many : leb (length t.filtered) t.per_page ≡ false = rw r.ten (ground arith) in
      let (bar, body) = update-bar t (list_shown t v) many in
      (body ∙ list-rows t v (ground arith) some_rows, bar)

  numbers :
      (t : BackupState)
      → IsInRange p t
      → 10 < length t.filtered
      → (bar_of t).start + length (backup_page_items t) ≡ (bar_of t).end + 1
  unfolding backup_page_items backup_max_page
  numbers t r more =
      let ten : 0 < t.per_page = rw r.ten (omega arith) in
      let fit = slice-numbers t.page t.per_page t.filtered ten r.from_one r.to_last (omega arith) in
      omega arith

-- Whatever was clicked, searched and received before: of an answer of which more than ten backups are
-- found, the rows of the page are shown, from the first to the last number that stands beside them, and
-- a button to another page is disabled exactly where there is none.
pub receive_backup_list_lem :
    (p : Platform) (bs : List Backup) (s : BackupState) (v : BackupView)
    → BackupReachable p s
    → 10 < length (receive_backups p bs s).filtered
    → let (t, shown) = receive_backup_list p (some bs) (s, v) in
      let rows = backup_page_items t in
      (shown.body ≡ backup_rows rows)
      × (shown.bar.is_shown ≡ true)
      × (shown.bar.start + length rows ≡ shown.bar.end + 1)
      × (shown.bar.prev_disabled ≡ leb t.page 1)
      × (shown.bar.next_disabled ≡ leb (backup_max_page t) t.page)
unfolding receive_backup_list
receive_backup_list_lem p bs s v r more =
    let t = receive_backups p bs s in
    let range = BackupReachable-IsInRange p t (received bs s r) in
    let (body, bar) = shows-rows p t v range more in
    let fit = numbers p t range more in
    (
      body,
      ap (λ b. b.is_shown) bar,
      ap (λ b. b.start + length (backup_page_items t)) bar ∙ fit ∙ sym (ap (λ b. b.end + 1) bar),
      ap (λ b. b.prev_disabled) bar,
      ap (λ b. b.next_disabled) bar,
    )
