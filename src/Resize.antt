-- ===== src/Resize.antt =====
-- The drag that changes the width of a column: the handlers of `mousedown`, `mousemove` and `mouseup`
-- with `_resizeState`. Positions and widths are in pixels.
pub mod Laws
mod Tests
use domain_ssl_checker.Base.{
  List, ℕ, Option, ℤ, Bool, ◌∷◌, max_ℤ, map, get_elem?, suc, pos, [], zero, ◌+ℤ◌, ◌-ℤ◌, none, some,
  true, false,
}

-- The widths of a table: of its headers, and of the cells of each row.
pub record Table : Type 0 where
  pub head : List ℤ
  pub rows : List (List ℤ)

-- `_resizeState`: the index of the header among its siblings, and where the drag began.
pub record Drag : Type 0 where
  pub column : ℕ
  pub start_x : ℤ
  pub start_w : ℤ

pub record ResizeState : Type 0 where
  pub table : Table
  pub drag : Option Drag
  -- The `cursor` of the page is "col-resize", and its `userSelect` "none".
  pub grabbing : Bool

-- A write out of range changes nothing.
abbrev pub set {ℓ} : {A : Type ℓ} → List A → ℕ → A → List A
set [] i v = []
set (x ∷ xs) zero v = v ∷ xs
set (x ∷ xs) (suc i) v = x ∷ set xs i v

-- `newW`
abbrev pub width_at : Drag → ℤ → ℤ
width_at d x = max_ℤ (pos 40) (d.start_w +ℤ (x -ℤ d.start_x))

unfoldable pub with_width : ℕ → ℤ → Table → Table
with_width i w t = record { head = set t.head i w; rows = map (λ r. set r i w) t.rows }

-- A press of the button at `x`, on the handle of a header.
unfoldable pub mouse_down : ℕ → ℤ → ResizeState → ResizeState
mouse_down i x s = elim (get_elem? s.table.head i) [
  | none ↦ s
  | some w ↦ record s {
    drag = some (record { column = i; start_x = x; start_w = w });
    grabbing = true;
  }
]

unfoldable pub mouse_move : ℤ → ResizeState → ResizeState
mouse_move x s = elim s.drag [
  | none ↦ s
  | some d ↦ record s { table = with_width d.column (width_at d x) s.table }
]

unfoldable pub mouse_up : ResizeState → ResizeState
mouse_up s = elim s.drag [ none ↦ s | some d ↦ record s { drag = none; grabbing = false } ]

-- The moves of one drag.
unfoldable pub mouse_moves : List ℤ → ResizeState → ResizeState
mouse_moves [] s = s
mouse_moves (x ∷ xs) s = mouse_moves xs (mouse_move x s)
