-- ===== src/Resize/Laws.antt =====
-- What a drag leaves: the width of its last position, whatever the moves before.
use domain_ssl_checker.Resize.{
  set, width_at, with_width, mouse_down, mouse_move, mouse_up, mouse_moves, ResizeState, Drag,
  Table, List, ℕ, ℤ,
}
use domain_ssl_checker.Base.{
  ◌≡◌, ◌∷◌, map, some, suc, [], ◌++◌, ap, refl, zero, Bool, get_elem?, ◌∙◌, max_ℤ, pos, ◌+ℤ◌, ◌-ℤ◌,
  none, false, true,
}

set-set {ℓ} : {A : Type ℓ} (xs : List A) (i : ℕ) (v w : A) → set (set xs i v) i w ≡ set xs i w
set-set [] i v w = refl
set-set (x ∷ xs) zero v w = refl
set-set (x ∷ xs) (suc i) v w = ap (x ∷◌) (set-set xs i v w)

map-set-set :
    (rows : List (List ℤ)) (i : ℕ) (v w : ℤ)
    → map (λ r. set r i w) (map (λ r. set r i v) rows) ≡ map (λ r. set r i w) rows
map-set-set [] i v w = refl
map-set-set (r ∷ rows) i v w = simp (set-set r i v w, map-set-set rows i v w)

with_width-with_width :
    (t : Table) (i : ℕ) (v w : ℤ) → with_width i w (with_width i v t) ≡ with_width i w t
unfolding with_width
with_width-with_width t i v w = simp (set-set t.head i v w, map-set-set t.rows i v w)

moves_last :
    (xs : List ℤ) (x : ℤ) (d : Drag) (t : Table) (g : Bool)
    → mouse_moves (xs ++ x ∷ []) (record { table = t; drag = some d; grabbing = g })
      ≡ record { table = with_width d.column (width_at d x) t; drag = some d; grabbing = g }
unfolding mouse_moves mouse_move
moves_last [] x d t g = refl
moves_last (y ∷ ys) x d t g =
    moves_last ys x d (with_width d.column (width_at d y) t) g
    ∙ ap (λ (u : Table). record { table = u; drag = some d; grabbing = g })
        (with_width-with_width t d.column (width_at d y) (width_at d x))

-- A press on the handle of a column, some moves and the release leave that column, its header and its
-- cells in all rows, as wide as it was plus the way from the press to the last move, but at least 40
-- pixels, the other columns as they were, and no drag under way.
pub drag_lem :
    (i : ℕ) (w from to : ℤ) (moves : List ℤ) (s : ResizeState)
    → get_elem? s.table.head i ≡ some w
    → mouse_up (mouse_moves (moves ++ to ∷ []) (mouse_down i from s)) ≡ record {
      table = with_width i (max_ℤ (pos 40) (w +ℤ (to -ℤ from))) s.table;
      drag = none;
      grabbing = false;
    }
unfolding mouse_down mouse_up
drag_lem i w from to moves s h =
    let d : Drag = record { column = i; start_x = from; start_w = w } in
    rw (mouse_down, h) (rw (moves_last moves to d s.table true) refl)
