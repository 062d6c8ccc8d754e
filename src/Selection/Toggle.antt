-- ===== src/Selection/Toggle.antt =====
-- What a click on a row's checkbox does to a selection.
use domain_ssl_checker.Selection.{Selection, has, reach, toggle_port}
use domain_ssl_checker.Selection.Sets.{has-filter, has-put_all}
use domain_ssl_checker.Base.{List, ℕ, Bool, true, ◌≡◌, false, none, refl}

-- In the port checks a shift-click that unchecks a row selects it all the same, with all rows of
-- the page between it and the row clicked before, if both are in the list.
pub toggle_port_selects :
    (on_page : ℕ → Bool) (ids : List ℕ) (id : ℕ) (s : Selection) (y : ℕ)
    → has y (reach true s.last_checked id ids) ≡ true
    → on_page y ≡ true
    → (has y (toggle_port on_page ids false true id s).selected ≡ true)
      × ((toggle_port on_page ids false true id s).last_checked ≡ none)
unfolding toggle_port
toggle_port_selects on_page ids id s y h shown = (rw (has-put_all, has-filter, h, shown) refl, refl)
