-- ===== src/Webapps/Actions/Tests.antt =====
-- The theorem on the bulk edit, at two web apps of which the server refuses one.
use domain_ssl_checker.Webapps.Actions.{
  submit_bulk_edit, payload_of, BulkEditForm, WebappActionState,
}
use domain_ssl_checker.Webapps.Actions.Laws.{submit_bulk_edit_lem, edits_of, reloads}
use domain_ssl_checker.Base.{codes, ◌∷◌, join, [], ◌==◌, false, true, ◌≡◌}

abbrev slower_form : BulkEditForm
slower_form = record {
  check_interval = codes "600";
  timeout = [];
  make_active = false;
  make_inactive = false;
  tags = codes "a, b";
}

abbrev two_webapps : WebappActionState
two_webapps = record { selected = 4 ∷ 9 ∷ []; edit_open = true }

submit_bulk_edit_example :
    let (after, es) = submit_bulk_edit (join (codes ",")) (λ id. id == 4) slower_form two_webapps in
    (edits_of es
      ≡ (4, payload_of (join (codes ",")) slower_form)
        ∷ (9, payload_of (join (codes ",")) slower_form)
        ∷ [])
    × (after.selected ≡ 4 ∷ 9 ∷ [])
    × (after.edit_open ≡ true)
    × (reloads es ≡ false)
submit_bulk_edit_example =
    submit_bulk_edit_lem (join (codes ",")) (λ id. id == 4) slower_form 4 (9 ∷ []) true
