-- ===== src/Dashboard/Laws.antt =====
-- What the dashboard shows and opens.
use mathlib.Core.Option
use domain_ssl_checker.Dashboard.{severity_percent, navigate_to_domain, Cards, has_row}
use domain_ssl_checker.Base.{
  Bool, List, ℤ, ◌≤◌, ℕ, pos, arith, negsuc, ◌≡◌, true, some, false, Bool-cases, inl, inr, refl,
}
use domain_ssl_checker.Domains.{Domain}
use domain_ssl_checker.Views.{Page}

-- The share is at most 100.
severity_percent_lem : (is_domain : Bool) (days : ℤ) → severity_percent is_domain days ≤ 100
unfolding severity_percent
severity_percent_lem true (pos d) = omega arith
severity_percent_lem false (pos d) = omega arith
severity_percent_lem is_domain (negsuc n) = omega arith

-- The card that is highlighted is that of the row that was asked for.
navigate_to_domain_lem :
    (sent_full sent_ssl : List Domain) (id : ℕ) (page : Page) (c : Cards)
    → Option.map (λ h. h.1) (navigate_to_domain sent_full sent_ssl id (page, c)).1.highlighted
      ≡ some id
unfolding navigate_to_domain
navigate_to_domain_lem sent_full sent_ssl id page c = elim (Bool-cases (has_row id c.full_rows)) [
  | inl e ↦ rw e refl
  | inr e ↦ rw e (elim (Bool-cases (has_row id c.ssl_rows)) [
    | inl f ↦ rw f refl
    | inr f ↦
        rw f (elim (Bool-cases (has_row id sent_full)) [ inl g ↦ rw g refl | inr g ↦ rw g refl ])
  ])
]
