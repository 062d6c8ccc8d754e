-- ===== src/Webapps/Details/Laws.antt =====
-- What the details of a web app can say.
use domain_ssl_checker.Webapps.Details.{
  DetailRow, status_slow, detail_head, interval_text, IntervalUnit, hours, minutes, seconds,
}
use domain_ssl_checker.Base.{◌≢◌, ℕ, arith, ◌*◌, ◌≤◌, ◌+◌, Bool-cases, leb, inl, inr}

-- The class of a slow web app is never given: a slow one is taken as one that is up.
pub badge-ne-slow : (a : DetailRow) → (detail_head a).badge ≢ status_slow
unfolding detail_head
badge-ne-slow a h = ground arith

-- The seconds of a unit.
abbrev pub unit_seconds : IntervalUnit → ℕ
unit_seconds hours = 3600
unit_seconds minutes = 60
unit_seconds seconds = 1

-- The interval that is shown is at most half of its unit away from the interval.
pub interval_text_lem :
    (n : ℕ)
    → let (k, u) = interval_text n in
      (2 * (k * unit_seconds u) ≤ 2 * n + unit_seconds u)
      × (2 * n ≤ 2 * (k * unit_seconds u) + unit_seconds u)
unfolding interval_text
interval_text_lem n = elim (Bool-cases (leb 3600 n)) [
  | inl l ↦ rw l (omega arith, omega arith)
  | inr l ↦ elim (Bool-cases (leb 60 n)) [
    | inl m ↦ rw l (rw m (omega arith, omega arith))
    | inr m ↦ rw l (rw m (omega arith, omega arith))
  ]
]
