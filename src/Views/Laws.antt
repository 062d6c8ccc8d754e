-- ===== src/Views/Laws.antt =====
-- What a viewer can open.
use domain_ssl_checker.Views.{
  dashboard, logs, settings, backups, dns, ports, domains, webapps, load_if, Page, Load, show_view,
  activate_view, hash_change, is_restricted, activate_first, choose_auto_refresh, loads_of,
}
use domain_ssl_checker.Base.{
  String, Bool, str_eq, ℕ, true, ◌≡◌, false, any, any-append, ◌||◌, if◌then◌else◌, not, ◌&&◌, refl,
  arith,
}

-- Navigation, the address, and the select, in any order.
pub data Visits (s : Page) : Page → Type 0 where
  start : Visits s s
  opened : (view : String) (t : Page) → Visits s t → Visits s (activate_view view t)
  addressed : (hash : String) (t : Page) → Visits s t → Visits s (hash_change hash t)
  chose : (seconds : ℕ) (t : Page) → Visits s t → Visits s (choose_auto_refresh seconds t)

-- A load that is for admins.
abbrev pub is_admin_load : Load → Bool
is_admin_load logs = true
is_admin_load settings = true
is_admin_load backups = true
is_admin_load dashboard = false
is_admin_load dns = false
is_admin_load ports = false
is_admin_load (domains type) = false
is_admin_load webapps = false

pub record IsViewer (s : Page) : Type 0 where
  pub no_admin : str_eq s.role "admin" ≡ false
  pub open_view : is_restricted s.view ≡ false
  pub no_load : any is_admin_load s.loads ≡ false

any-load_if : (b : Bool) (l : Load) → any is_admin_load (load_if b l) ≡ (b && is_admin_load l)
any-load_if true l = ground arith
any-load_if false l = refl

no_admin_load :
    (a b c d e f g i k : Bool)
    → (c || b || d) ≡ false
    → (a && false
        || b && true
        || c && true
        || d && true
        || e && false
        || f && false
        || g && false
        || i && false
        || k && false)
      ≡ false
no_admin_load a b c d e f g i k h = ground arith

any-loads_of :
    (view : String) → is_restricted view ≡ false → any is_admin_load (loads_of view) ≡ false
any-loads_of view h = simp (any-append, any-load_if) (no_admin_load _ _ _ _ _ _ _ _ _ h)

show_view-IsViewer :
    (view : String) (s : Page)
    → is_restricted view ≡ false
    → str_eq s.role "admin" ≡ false
    → any is_admin_load s.loads ≡ false
    → IsViewer (show_view view s)
unfolding show_view
show_view-IsViewer view s open_view r l = record {
  no_admin = r;
  open_view = open_view;
  no_load = rw (any-append, l) (any-loads_of view open_view);
}

IsViewer-if :
    (b : Bool) (s t : Page) → IsViewer s → (b ≡ false → IsViewer t) → IsViewer (if b then s else t)
IsViewer-if true s t h k = h
IsViewer-if false s t h k = k refl

activate_first-IsViewer : (view : String) (s : Page) → IsViewer s → IsViewer (activate_first view s)
unfolding activate_first
activate_first-IsViewer view s v =
    IsViewer-if _ _ _
      (show_view-IsViewer "dashboard" (record s { hash = "dashboard" }) refl v.no_admin v.no_load)
      (λ e.
        show_view-IsViewer view s (allowed (is_restricted view) v.no_admin e) v.no_admin v.no_load)
  where
    allowed : {r : Bool} (b : Bool) → r ≡ false → (not r && b) ≡ false → b ≡ false
    allowed b h e = ground arith

activate_view-IsViewer : (view : String) (s : Page) → IsViewer s → IsViewer (activate_view view s)
unfolding activate_view
activate_view-IsViewer view s v =
    let first = activate_first-IsViewer view s v in
    record { no_admin = first.no_admin; open_view = first.open_view; no_load = first.no_load }

hash_change-IsViewer : (hash : String) (s : Page) → IsViewer s → IsViewer (hash_change hash s)
unfolding hash_change
hash_change-IsViewer hash s v =
    activate_view-IsViewer _ (record s { hash = hash })
      (record { no_admin = v.no_admin; open_view = v.open_view; no_load = v.no_load })

choose_auto_refresh-IsViewer :
    (seconds : ℕ) (s : Page) → IsViewer s → IsViewer (choose_auto_refresh seconds s)
unfolding choose_auto_refresh
choose_auto_refresh-IsViewer seconds s v = record {
  no_admin = v.no_admin;
  open_view = v.open_view;
  no_load = v.no_load;
}

-- Once the session has said that the user is no admin, on a view for all, no navigation opens the
-- settings, the logs or the backups, or loads what they show.
pub Visits-IsViewer :
    (s t : Page)
    → str_eq s.role "admin" ≡ false
    → is_restricted s.view ≡ false
    → any is_admin_load s.loads ≡ false
    → Visits s t
    → (is_restricted t.view ≡ false) × (any is_admin_load t.loads ≡ false)
Visits-IsViewer s t r o l v =
    let w = keeps v (record { no_admin = r; open_view = o; no_load = l }) in
    (w.open_view, w.no_load)
  where
    keeps : {u : Page} → Visits s u → IsViewer s → IsViewer u
    keeps start h = h
    keeps (opened view u w) h = activate_view-IsViewer view u (keeps w h)
    keeps (addressed hash u w) h = hash_change-IsViewer hash u (keeps w h)
    keeps (chose seconds u w) h = choose_auto_refresh-IsViewer seconds u (keeps w h)
