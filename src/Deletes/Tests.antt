-- ===== src/Deletes/Tests.antt =====
-- The theorem on the bulk delete, with a server that refuses odd ids.
use domain_ssl_checker.Base.{filter, ℕ, [], Bool, true, ◌∷◌, ◌%◌, ◌≡◌, ◌==◌, not, ◌&&◌, arith, refl}
use domain_ssl_checker.Deletes.{DeleteState, bulk_delete}
use domain_ssl_checker.Selection.{has}
use domain_ssl_checker.Deletes.Laws.{requests_of, bulk_delete_lem}

abbrev two_selected : DeleteState
two_selected = record { cached = []; selected = 4 ∷ 7 ∷ [] }

abbrev refuses_odd : ℕ → Bool
refuses_odd id = id % 2 == 0

bulk_delete_example :
    ((bulk_delete "admin" true refuses_odd two_selected).0.cached
      ≡ filter (λ d. not (has d.id (4 ∷ 7 ∷ []) && refuses_odd d.id)) [])
    × ((bulk_delete "admin" true refuses_odd two_selected).0.selected ≡ [])
    × (requests_of (bulk_delete "admin" true refuses_odd two_selected).1 ≡ 4 ∷ 7 ∷ [])
    × ((bulk_delete "viewer" true refuses_odd two_selected).0 ≡ two_selected)
bulk_delete_example = bulk_delete_lem refuses_odd two_selected "viewer" true (omega arith) refl
