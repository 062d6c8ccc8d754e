-- ===== src/Resize/Tests.antt =====
-- The theorem on the drag, at a table of two columns.
use domain_ssl_checker.Resize.{ResizeState, mouse_up, with_width, mouse_moves, mouse_down}
use domain_ssl_checker.Base.{◌∷◌, [], none, ◌++◌, false, ◌≡◌, max_ℤ, refl, pos, ◌+ℤ◌, ◌-ℤ◌}
use domain_ssl_checker.Resize.Laws.{drag_lem}

abbrev small_table : ResizeState
small_table = record {
  table = record {
    head = pos 100 ∷ pos 80 ∷ [];
    rows = (pos 100 ∷ pos 80 ∷ []) ∷ (pos 100 ∷ []) ∷ [];
  };
  drag = none;
  grabbing = false;
}

drag_example :
    mouse_up
      (mouse_moves ((pos 500 ∷ pos 10 ∷ []) ++ pos 150 ∷ []) (mouse_down 1 (pos 200) small_table))
    ≡ record {
      table = with_width 1 (max_ℤ (pos 40) (pos 80 +ℤ (pos 150 -ℤ pos 200))) small_table.table;
      drag = none;
      grabbing = false;
    }
drag_example = drag_lem 1 (pos 80) (pos 200) (pos 150) (pos 500 ∷ pos 10 ∷ []) small_table refl

-- 30 pixels would be too narrow.
too_narrow :
    with_width 1 (max_ℤ (pos 40) (pos 80 +ℤ (pos 150 -ℤ pos 200))) small_table.table
    ≡ record { head = pos 100 ∷ pos 40 ∷ []; rows = (pos 100 ∷ pos 40 ∷ []) ∷ (pos 100 ∷ []) ∷ [] }
unfolding with_width ◌+ℤ◌ ◌-ℤ◌
too_narrow = refl
