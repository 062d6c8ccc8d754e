-- ===== src/Menus/Tests.antt =====
-- The theorem on the menus, at a menu at the right border of the screen.
use domain_ssl_checker.Menus.{Screen, Rect, Menu, toggle_menu, menu_open}
use domain_ssl_checker.Base.{ℕ, ◌-ℤ◌, All, pos, false, ◌∷◌, [], ◌≡◌, true, arith, ◌≤ℤ◌, refl}
use domain_ssl_checker.Menus.Laws.{DropdownAt, others, toggle_menu_lem}

abbrev screen : Screen
screen = record { inner_width = 1000; inner_height = 700 }

abbrev button : Rect
button = record { left = pos 950; right = pos 990; top = pos 600; bottom = pos 630 }

abbrev shut_menu : ℕ → Menu
shut_menu row = record {
  row = row;
  is_dropdown = true;
  shown = false;
  left = pos 0;
  top = pos 0;
  width = 160;
  height = 0;
}

above : button.top ≤ℤ (pos screen.inner_height -ℤ pos 4)
unfolding ◌-ℤ◌
above = omega arith

toggle_menu_example :
    let ms = shut_menu 3 ∷ shut_menu 4 ∷ [] in
    All (DropdownAt screen 4) (toggle_menu screen button 4 ms)
    × (menu_open 4 (toggle_menu screen button 4 ms) ≡ true)
    × (others 4 (toggle_menu screen button 4 ms) ≡ [])
toggle_menu_example =
    toggle_menu_lem true screen button 4 (shut_menu 3 ∷ shut_menu 4 ∷ [])
      (record { from_left = omega arith; from_bottom = above }) (omega arith)
      ((λ e. refl), ((λ e. refl), tt)) refl
