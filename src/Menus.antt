-- ===== src/Menus.antt =====
-- The menus of the rows: the click on `toggle-kebab` and on `toggle-actions-dropdown`, with the place
-- that they give the menu, and the arrow keys in an open menu. Lengths are in pixels.
pub mod Laws
pub mod Place
pub mod Arrows
mod Tests
use domain_ssl_checker.Base.{
  ℤ, ℕ, false, List, true, if◌then◌else◌, ◌-ℤ◌, ◌+ℤ◌, Bool, map, Option, ◌==◌, pos, any, some, ltb,
  lt_ℤ, ◌&&◌, ◌+◌, ◌-◌, ◌%◌, none,
}

-- What `getBoundingClientRect` gives of the button.
pub record Rect : Type 0 where
  pub left : ℤ
  pub right : ℤ
  pub top : ℤ
  pub bottom : ℤ

-- `window.innerWidth` and `window.innerHeight`
pub record Screen : Type 0 where
  pub inner_width : ℕ
  pub inner_height : ℕ

-- `dropdown.offsetWidth || 180`
abbrev pub size_or : ℕ → ℕ → ℕ
size_or n d = if n == 0 then d else n

-- `left`, `top` and their corrections
unfoldable pub place_left : Rect → ℕ → ℕ → ℤ
place_left b width inner =
    let left = b.right -ℤ pos width in
    let kept = if lt_ℤ left (pos 8) then b.left else left in
    if lt_ℤ (pos inner -ℤ pos 8) (kept +ℤ pos width) then pos inner -ℤ pos width -ℤ pos 8 else kept

unfoldable pub place_top : Rect → ℕ → ℕ → ℤ
place_top b height inner =
    let below = b.bottom +ℤ pos 4 in
    let top =
      if lt_ℤ (pos inner -ℤ pos 8) (below +ℤ pos height)
      then b.top -ℤ pos height -ℤ pos 4
      else below in
    if lt_ℤ top (pos 8) then pos 8 else top

-- A menu of the page, by the row that it belongs to: its `display` is "block", where it stands, and
-- its `offsetWidth` and `offsetHeight` when it is shown.
pub record Menu : Type 0 where
  pub row : ℕ
  -- Its class is `kebab-dropdown`; that of a port check has the class `kebab-menu` only.
  pub is_dropdown : Bool
  pub shown : Bool
  pub left : ℤ
  pub top : ℤ
  pub width : ℕ
  pub height : ℕ

abbrev pub hidden : Menu → Menu
hidden m = record m { shown = false }

-- `querySelectorAll('.kebab-dropdown').forEach(d => d.style.display = 'none')`
abbrev pub hide_menus : List Menu → List Menu
hide_menus ms = map (λ m. if m.is_dropdown then hidden m else m) ms

unfoldable pub placed : Screen → Rect → Menu → Menu
placed w b m = record m {
  shown = true;
  left = place_left b (size_or m.width 180) w.inner_width;
  top = place_top b (size_or m.height 200) w.inner_height;
}

abbrev pub menu_open : ℕ → List Menu → Bool
menu_open row ms = any (λ m. m.row == row && m.shown) ms

-- The click on the button of a row.
unfoldable pub toggle_menu : Screen → Rect → ℕ → List Menu → List Menu
toggle_menu w b row ms =
    if menu_open row ms
    then hide_menus ms
    else map (λ m. if m.row == row then placed w b m else m) (hide_menus ms)

-- `ArrowDown` and `ArrowUp` in a menu of `n` buttons, `n` not 0; `none` is the `indexOf` that is -1.
unfoldable pub arrow_down : ℕ → Option ℕ → ℕ
arrow_down n none = 0
arrow_down n (some i) = (i + 1) % n

unfoldable pub arrow_up : ℕ → Option ℕ → ℕ
arrow_up n none = if ltb n 2 then 0 else n - 2
arrow_up n (some i) = (i + n - 1) % n
