-- ===== src/Menus/Laws.antt =====
-- Which menus are open after a click on the button of a row.
use domain_ssl_checker.Menus.{
  Rect, Screen, Menu, placed, toggle_menu, hide_menus, menu_open, hidden,
}
use domain_ssl_checker.Base.{
  ℕ, arith, if◌then◌else◌, List, Bool, ◌≡◌, All, map, any, true, filter, ◌||◌, ◌&&◌, ◌==◌, false,
  ◌∷◌, not, [], Bool-cases, refl, inl, ==_iff, inr, ◌∙◌, ap, sym,
}
use domain_ssl_checker.Menus.Place.{IsOnScreen, Fits, IsInside, placed-IsInside}

abbrev pub has_menu : ℕ → List Menu → Bool
has_menu row ms = any (λ m. m.row == row) ms

-- A menu that is shown belongs to this row, and stands inside of the screen.
abbrev pub ShownAt : Screen → ℕ → Menu → Type 0
ShownAt w row m = m.shown ≡ true → (m.row ≡ row) × IsInside w m

-- A dropdown that is shown belongs to this row, and stands inside of the screen.
abbrev pub DropdownAt : Screen → ℕ → Menu → Type 0
DropdownAt w row m = m.is_dropdown ≡ true → ShownAt w row m

-- The menus of the row are dropdowns, or none of them is.
abbrev pub IsKind : Bool → ℕ → Menu → Type 0
IsKind kind row m = m.row ≡ row → m.is_dropdown ≡ kind

-- The menus of other rows that are no dropdowns
abbrev pub others : ℕ → List Menu → List Menu
others row ms = filter (λ m. not (m.is_dropdown || m.row == row)) ms

-- A dropdown that is not shown
abbrev Shut : Menu → Type 0
Shut m = m.is_dropdown ≡ true → m.shown ≡ false

Shut-DropdownAt : (w : Screen) (row : ℕ) (ms : List Menu) → All Shut ms → All (DropdownAt w row) ms
Shut-DropdownAt w row [] h = tt
Shut-DropdownAt w row (m ∷ ms) h =
    ((λ d shown. absurd (ground (arith, h.0 d))), Shut-DropdownAt w row ms h.1)

abbrev hide_if : Bool → Menu → Menu
hide_if d m = if d then hidden m else m

if-cons :
    (c : Bool) (m n : Menu) (ms ns : List Menu)
    → (c ≡ true → n ≡ m)
    → ns ≡ ms
    → (if c then n ∷ ns else ns) ≡ (if c then m ∷ ms else ms)
if-cons true m n ms ns same rest = ap (n ∷◌) rest ∙ ap (λ x. x ∷ ms) (same refl)
if-cons false m n ms ns same rest = rest

-- A head that the others leave out, and one that may be kept.
others-cons :
    (row : ℕ) (m n : Menu) (ms ns : List Menu)
    → n.is_dropdown ≡ m.is_dropdown
    → n.row ≡ m.row
    → (not (m.is_dropdown || m.row == row) ≡ true → n ≡ m)
    → others row ns ≡ others row ms
    → others row (n ∷ ns) ≡ others row (m ∷ ms)
others-cons row m n ms ns kind place same rest =
    ap (λ x. if not (x || n.row == row) then n ∷ others row ns else others row ns) kind
    ∙ ap (λ r. if not (m.is_dropdown || r == row) then n ∷ others row ns else others row ns) place
    ∙ if-cons (not (m.is_dropdown || m.row == row)) m n _ _ same rest

hide_test :
    (kind mine shown a b : Bool)
    → (mine ≡ true → kind ≡ true)
    → a ≡ (not kind && b)
    → (mine && false || a) ≡ (not kind && (mine && shown || b))
hide_test true mine shown a b k h = ground arith
hide_test false true shown a b k h = absurd (ground (arith, k refl))
hide_test false false shown a b k h = h

keep_test :
    (kind mine shown a b : Bool)
    → (mine ≡ true → kind ≡ false)
    → a ≡ (not kind && b)
    → (mine && shown || a) ≡ (not kind && (mine && shown || b))
keep_test false mine shown a b k h = ap (mine && shown ||◌) h
keep_test true true shown a b k h = absurd (ground (arith, k refl))
keep_test true false shown a b k h = h

hide_one :
    (d kind : Bool) (row : ℕ) (m : Menu) (a b : Bool)
    → m.is_dropdown ≡ d
    → IsKind kind row m
    → a ≡ (not kind && b)
    → Shut (hide_if d m)
      × (((hide_if d m).row == row && (hide_if d m).shown || a)
          ≡ (not kind && (m.row == row && m.shown || b)))
hide_one true kind row m a b e k h = (
  λ d. refl,
  hide_test kind (m.row == row) m.shown a b (λ mine. sym (k ((==_iff m.row row).0 mine)) ∙ e) h,
)
hide_one false kind row m a b e k h = (
  λ d. absurd (ground (arith, e, d)),
  keep_test kind (m.row == row) m.shown a b (λ mine. sym (k ((==_iff m.row row).0 mine)) ∙ e) h,
)

-- What hiding leaves of a menu
hide_keeps :
    (w : Screen) (d : Bool) (m : Menu)
    → m.is_dropdown ≡ d
    → ((hide_if d m).is_dropdown ≡ m.is_dropdown)
      × ((hide_if d m).row ≡ m.row)
      × (Fits w m → Fits w (hide_if d m))
      × (m.is_dropdown ≡ false → hide_if d m ≡ m)
hide_keeps w true m e = (refl, refl, (λ f. f), λ f. absurd (ground (arith, e, f)))
hide_keeps w false m e = (refl, refl, (λ f. f), λ f. refl)

hide_menus_lem :
    (w : Screen) (row : ℕ) (kind : Bool) (ms : List Menu)
    → All (IsKind kind row) ms
    → All Shut (hide_menus ms)
      × (menu_open row (hide_menus ms) ≡ (not kind && menu_open row ms))
      × (others row (hide_menus ms) ≡ others row ms)
hide_menus_lem w row kind [] k = (tt, ground arith, refl)
hide_menus_lem w row kind (m ∷ ms) k =
    let (rest, open_now, same) = hide_menus_lem w row kind ms k.1 in
    let (shut, test) = hide_one m.is_dropdown kind row m _ _ refl k.0 open_now in
    let (of_kind, place, fit, kept) = hide_keeps w m.is_dropdown m refl in
    (
      (shut, rest),
      test,
      others-cons row m _ ms (hide_menus ms) of_kind place (λ e. kept (ground arith)) same,
    )

-- What hiding leaves of all menus
hide_menus-Fits :
    (w : Screen) (row : ℕ) (ms : List Menu)
    → All (Fits w) ms
    → All (Fits w) (hide_menus ms) × (has_menu row (hide_menus ms) ≡ has_menu row ms)
hide_menus-Fits w row [] f = (tt, refl)
hide_menus-Fits w row (m ∷ ms) f =
    let (rest, has) = hide_menus-Fits w row ms f.1 in
    let (of_kind, place, fit, kept) = hide_keeps w m.is_dropdown m refl in
    (
      (fit f.0, rest),
      ap (λ r. r == row || has_menu row (hide_menus ms)) place ∙ ap (m.row == row ||◌) has,
    )

abbrev click_if : Screen → Rect → Bool → Menu → Menu
click_if w b mine m = if mine then placed w b m else m

click_one :
    (w : Screen) (b : Rect) (row : ℕ) (mine : Bool) (m : Menu) (a c : Bool)
    → IsOnScreen w b
    → Fits w m
    → Shut m
    → (m.row == row) ≡ mine
    → a ≡ c
    → DropdownAt w row (click_if w b mine m)
      × (((click_if w b mine m).row == row && (click_if w b mine m).shown || a)
          ≡ (m.row == row || c))
      × ((click_if w b mine m).is_dropdown ≡ m.is_dropdown)
      × ((click_if w b mine m).row ≡ m.row)
      × ((m.row == row) ≡ false → click_if w b mine m ≡ m)
unfolding placed
click_one w b row true m a c on fits shut e h = (
  λ d shown. ((==_iff m.row row).0 e, placed-IsInside w b m on fits),
  rw e refl,
  refl,
  refl,
  λ f. absurd (ground (arith, e, f)),
)
click_one w b row false m a c on fits shut e h =
    (λ d shown. absurd (ground (arith, shut d)), rw e h, refl, refl, λ f. refl)

-- Placing the menu of the row, where all that can be are hidden.
abbrev opened : Screen → Rect → ℕ → List Menu → List Menu
opened w b row ms = map (λ m. if m.row == row then placed w b m else m) ms

opened_lem :
    (w : Screen) (b : Rect) (row : ℕ) (ms : List Menu)
    → IsOnScreen w b
    → All (Fits w) ms
    → All Shut ms
    → All (DropdownAt w row) (opened w b row ms)
      × (menu_open row (opened w b row ms) ≡ has_menu row ms)
      × (others row (opened w b row ms) ≡ others row ms)
opened_lem w b row [] on fits shut = (tt, refl, refl)
opened_lem w b row (m ∷ ms) on fits shut =
    let (rest, shown, same) = opened_lem w b row ms on fits.1 shut.1 in
    let (here, test, of_kind, place, kept) =
      click_one w b row (m.row == row) m _ _ on fits.0 shut.0 refl shown in
    (
      (here, rest),
      test,
      others-cons row m _ ms (opened w b row ms) of_kind place (λ e. kept (ground arith)) same,
    )

-- A click on the button of a row that has a menu, on the screen and with 8 pixels to its left: if the
-- menu is a dropdown, it opens if it was shut and shuts if it was open; if it is none, as that of a port
-- check, it is open afterwards, also if it was open before. No dropdown of another row is open then, and
-- an open one stands 8 pixels or more from each border, if all menus are that much smaller than the
-- screen; the menus of other rows that are no dropdowns are left as they were.
pub toggle_menu_lem :
    (kind : Bool) (w : Screen) (b : Rect) (row : ℕ) (ms : List Menu)
    → IsOnScreen w b
    → All (Fits w) ms
    → All (IsKind kind row) ms
    → has_menu row ms ≡ true
    → All (DropdownAt w row) (toggle_menu w b row ms)
      × (menu_open row (toggle_menu w b row ms) ≡ not (kind && menu_open row ms))
      × (others row (toggle_menu w b row ms) ≡ others row ms)
unfolding toggle_menu
toggle_menu_lem kind w b row ms on fits k has =
    let (shut, test, same) = hide_menus_lem w row kind ms k in
    elim (Bool-cases (menu_open row ms)) [
      | inl open_now ↦
          rw open_now
            (Shut-DropdownAt w row (hide_menus ms) shut, test ∙ rw open_now (ground arith), same)
      | inr closed ↦
          let (fit, has_it) = hide_menus-Fits w row ms fits in
          let (rest, shown, kept) = opened_lem w b row (hide_menus ms) on fit shut in
          rw closed (rest, shown ∙ has_it ∙ has ∙ ground arith, kept ∙ same)
    ]
