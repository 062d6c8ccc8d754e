-- ===== src/Groups/Tests.antt =====
-- The theorem on the groups, at three rows of two statuses.
use domain_ssl_checker.Base.{
  filter, ℕ, List, String, codes, ◌∷◌, false, none, [], ◌≡◌, some, length,
}
use domain_ssl_checker.Domains.{full, Domain}
use domain_ssl_checker.Groups.Laws.{has_status, shown_rows, rows_by_status, render_grouped_lem}
use domain_ssl_checker.Groups.{render_grouped, status_order_shown, stats_of}

abbrev grouped_row : ℕ → String → Domain
grouped_row id status = record {
  id = id;
  url = codes "a.org";
  ssl_status = none;
  domain_status = some status;
  ssl_days_left = none;
  domain_days_left = none;
  ssl_issuer = none;
  domain_registrar = none;
  manual_registrar = none;
  manual_expiry_date = none;
  last_checked = none;
  notes = none;
}

abbrev grouped_rows : List Domain
grouped_rows = grouped_row 1 "healthy" ∷ grouped_row 2 "expired" ∷ grouped_row 3 "healthy" ∷ []

render_grouped_example :
    (shown_rows (render_grouped full (λ s. false) grouped_rows)
      ≡ rows_by_status full status_order_shown grouped_rows)
    × (stats_of full grouped_rows "healthy"
        ≡ length (filter (has_status full "healthy") grouped_rows))
render_grouped_example = render_grouped_lem full (λ s. false) "healthy" grouped_rows
