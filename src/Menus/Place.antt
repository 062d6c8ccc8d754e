-- ===== src/Menus/Place.antt =====
-- Where the menu of a row is placed, and that it stands inside of the screen.
use domain_ssl_checker.Menus.{place_left, place_top, Rect, Screen, Menu, placed, size_or}
use domain_ssl_checker.Base.{
  ℕ, ◌+ℤ◌, pos, ◌+◌, ◌≤ℤ◌, ◌≤◌, ◌-ℤ◌, arith, if◌then◌else◌, -ℤ_parts, lt_ℤ, +ℤ_parts,
}

place_left_right :
    (b : Rect) (width inner : ℕ) → (place_left b width inner +ℤ pos width) ≤ℤ (pos inner -ℤ pos 8)
unfolding place_left
place_left_right b width inner =
    let left = b.right -ℤ pos width in
    let kept = if lt_ℤ left (pos 8) then b.left else left in
    ground (
      arith,
      -ℤ_parts (pos inner) (pos 8),
      -ℤ_parts (pos inner) (pos width),
      -ℤ_parts (pos inner -ℤ pos width) (pos 8),
      +ℤ_parts (pos inner -ℤ pos width -ℤ pos 8) (pos width),
    )

place_left_left :
    (b : Rect) (width inner : ℕ)
    → pos 8 ≤ℤ b.left
    → width + 16 ≤ inner
    → pos 8 ≤ℤ place_left b width inner
unfolding place_left
place_left_left b width inner h fits =
    ground (arith, -ℤ_parts (pos inner) (pos width), -ℤ_parts (pos inner -ℤ pos width) (pos 8))

place_top_top : (b : Rect) (height inner : ℕ) → pos 8 ≤ℤ place_top b height inner
unfolding place_top
place_top_top b height inner = ground arith

-- Below the button, or above it if it does not fit there.
place_top_bottom :
    (b : Rect) (height inner : ℕ)
    → height + 16 ≤ inner
    → b.top ≤ℤ (pos inner -ℤ pos 4)
    → (place_top b height inner +ℤ pos height) ≤ℤ (pos inner -ℤ pos 8)
unfolding place_top
place_top_bottom b height inner fits h = ground (
  arith,
  -ℤ_parts (pos inner) (pos 8),
  -ℤ_parts (pos inner) (pos 4),
  -ℤ_parts b.top (pos height),
  -ℤ_parts (b.top -ℤ pos height) (pos 4),
  +ℤ_parts (b.top -ℤ pos height -ℤ pos 4) (pos height),
  +ℤ_parts (pos 8) (pos height),
)

-- A button that stands on the screen, with 8 pixels to its left.
pub record IsOnScreen (w : Screen) (b : Rect) : Type 0 where
  pub from_left : pos 8 ≤ℤ b.left
  pub from_bottom : b.top ≤ℤ (pos w.inner_height -ℤ pos 4)

abbrev pub width_of : Menu → ℕ
width_of m = size_or m.width 180

abbrev pub height_of : Menu → ℕ
height_of m = size_or m.height 200

-- A menu that is smaller than the screen by 16 pixels.
abbrev pub Fits : Screen → Menu → Type 0
Fits w m = (width_of m + 16 ≤ w.inner_width) × (height_of m + 16 ≤ w.inner_height)

-- It stands 8 pixels or more from each border.
pub record IsInside (w : Screen) (m : Menu) : Type 0 where
  pub from_left : pos 8 ≤ℤ m.left
  pub from_right : (m.left +ℤ pos (width_of m)) ≤ℤ (pos w.inner_width -ℤ pos 8)
  pub from_top : pos 8 ≤ℤ m.top
  pub from_bottom : (m.top +ℤ pos (height_of m)) ≤ℤ (pos w.inner_height -ℤ pos 8)

pub placed-IsInside :
    (w : Screen) (b : Rect) (m : Menu) → IsOnScreen w b → Fits w m → IsInside w (placed w b m)
unfolding placed
placed-IsInside w b m on fits = record {
  from_left = place_left_left b (width_of m) w.inner_width on.from_left fits.0;
  from_right = place_left_right b (width_of m) w.inner_width;
  from_top = place_top_top b (height_of m) w.inner_height;
  from_bottom = place_top_bottom b (height_of m) w.inner_height fits.1 on.from_bottom;
}
