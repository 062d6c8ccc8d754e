-- ===== src/Backups/Laws.antt =====
-- The pages of the backups stay in range, whatever is clicked, typed or received.
use domain_ssl_checker.Domains.Pages.Laws.{page_count-pos}
use domain_ssl_checker.Platform.{Platform}
use domain_ssl_checker.Backups.{
  BackupState, searched_backups, backup_max_page, filter_backups, backup_prev, backup_next,
  backup_jump, reset_backup_state, no_backups, search_backups, receive_backups, Backup, some,
  negsuc,
}
use domain_ssl_checker.Base.{
  ◌≤◌, Text, Option, List, ◌≡◌, [], length, ℤ, arith, sym, refl, Bool, ℕ, ltb, true, ◌-◌, ◌+◌,
  false, none, if◌then◌else◌,
}

module _ (p : Platform) where
  -- Clicks, searches and answers, in any order.
  pub data BackupReachable : BackupState → Type 0 where
    at_start : BackupReachable no_backups
    reset : (s : BackupState) → BackupReachable s → BackupReachable (reset_backup_state s)
    searched :
        (text : Text) (s : BackupState)
        → BackupReachable s
        → BackupReachable (search_backups p text s)
    received :
        (bs : List Backup) (s : BackupState)
        → BackupReachable s
        → BackupReachable (receive_backups p bs s)
    went_prev : (s : BackupState) → BackupReachable s → BackupReachable (backup_prev s)
    went_next : (s : BackupState) → BackupReachable s → BackupReachable (backup_next s)
    jumped :
        (o : Option ℤ) (s : BackupState) → BackupReachable s → BackupReachable (backup_jump o s)

  pub record IsInRange (s : BackupState) : Type 0 where
    pub from_one : 1 ≤ s.page
    pub to_last : s.page ≤ backup_max_page s
    pub is_searched : s.filtered ≡ searched_backups p s.search s.backups
    pub ten : s.per_page ≡ 10

  pub searched_backups-nil : (text : Text) → searched_backups p text [] ≡ []
  unfolding searched_backups
  searched_backups-nil text = ground arith

  max_page-pos : (s : BackupState) → 1 ≤ backup_max_page s
  unfolding backup_max_page
  max_page-pos s = page_count-pos (length s.filtered) s.per_page

  IsInRange-if :
      (b : Bool) (s t : BackupState)
      → (b ≡ true → IsInRange s)
      → (b ≡ false → IsInRange t)
      → IsInRange (if b then s else t)
  IsInRange-if true s t h k = h refl
  IsInRange-if false s t h k = k refl

  -- Only the page is set.
  on_page :
      (n : ℕ) (s : BackupState)
      → 1 ≤ n
      → n ≤ backup_max_page s
      → s.filtered ≡ searched_backups p s.search s.backups
      → s.per_page ≡ 10
      → IsInRange (record s { page = n })
  unfolding backup_max_page
  on_page n s h k e t = record { from_one = h; to_last = k; is_searched = e; ten = t }

  filter_backups-IsInRange :
      (s : BackupState) → 1 ≤ s.page → s.per_page ≡ 10 → IsInRange (filter_backups p s)
  unfolding filter_backups
  filter_backups-IsInRange s h t =
      let s' : BackupState = record s { filtered = searched_backups p s.search s.backups } in
      IsInRange-if (ltb (backup_max_page s') s'.page) _ s'
        (λ e. on_page (backup_max_page s') s' (max_page-pos s') (omega arith) refl t)
        (λ e. on_page s'.page s' h (ground arith) refl t)

  backup_prev-IsInRange : (s : BackupState) → IsInRange s → IsInRange (backup_prev s)
  unfolding backup_prev
  backup_prev-IsInRange s h =
      IsInRange-if (ltb 1 s.page) _ s
        (λ e. on_page (s.page - 1) s (ground arith) (omega (arith, h.to_last)) h.is_searched h.ten)
        (λ e. h)

  backup_next-IsInRange : (s : BackupState) → IsInRange s → IsInRange (backup_next s)
  unfolding backup_next
  backup_next-IsInRange s h =
      IsInRange-if (ltb s.page (backup_max_page s)) _ s
        (λ e. on_page (s.page + 1) s (omega arith) (ground arith) h.is_searched h.ten) (λ e. h)

  backup_jump-IsInRange :
      (o : Option ℤ) (s : BackupState) → IsInRange s → IsInRange (backup_jump o s)
  unfolding backup_jump
  backup_jump-IsInRange none s h =
      on_page _ s (omega (arith, max_page-pos s)) (omega arith) h.is_searched h.ten
  backup_jump-IsInRange (some (negsuc n)) s h =
      on_page _ s (omega (arith, max_page-pos s)) (omega arith) h.is_searched h.ten
  backup_jump-IsInRange (some (ℤ.pos n)) s h =
      on_page _ s (omega (arith, max_page-pos s)) (omega arith) h.is_searched h.ten

  -- In every state that the list of backups comes to, the page is between 1 and the last page, the
  -- rows are those backups that the search leaves, and there are ten on a page.
  pub BackupReachable-IsInRange : (s : BackupState) → BackupReachable s → IsInRange s
  unfolding reset_backup_state search_backups receive_backups
  BackupReachable-IsInRange _ at_start = record {
    from_one = omega arith;
    to_last = max_page-pos no_backups;
    is_searched = sym (searched_backups-nil []);
    ten = refl;
  }
  BackupReachable-IsInRange _ (reset s r) = record {
    from_one = omega arith;
    to_last = max_page-pos (record s { backups = []; filtered = []; page = 1; search = [] });
    is_searched = sym (searched_backups-nil []);
    ten = (BackupReachable-IsInRange s r).ten;
  }
  BackupReachable-IsInRange _ (searched text s r) =
      filter_backups-IsInRange (record s { search = text; page = 1 }) (omega arith)
        (BackupReachable-IsInRange s r).ten
  BackupReachable-IsInRange _ (received bs s r) =
      let h = BackupReachable-IsInRange s r in
      filter_backups-IsInRange (record s { backups = bs }) h.from_one h.ten
  BackupReachable-IsInRange _ (went_prev s r) =
      backup_prev-IsInRange s (BackupReachable-IsInRange s r)
  BackupReachable-IsInRange _ (went_next s r) =
      backup_next-IsInRange s (BackupReachable-IsInRange s r)
  BackupReachable-IsInRange _ (jumped o s r) =
      backup_jump-IsInRange o s (BackupReachable-IsInRange s r)
