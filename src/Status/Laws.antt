-- ===== src/Status/Laws.antt =====
-- The classification of days is monotone, and where its labels are wrong.
use native.Mathlib.Decide.{dec_lt}
use domain_ssl_checker.Domains.Sort.{status_order}
use domain_ssl_checker.Status.{
  Label, above, at_most, word, capitalized, ssl_status_from_days, ssl_status_label,
}
use domain_ssl_checker.Base.{
  ℤ, Option, lt_nat, String, ◌≤ℤ◌, some, suc, none, ◌≤◌, ◌↔◌, ◌≡◌, negsuc, ◌≢◌, false, arith, pos,
  true, ℕ, if◌then◌else◌, ltb, ◌<◌, refl,
}

-- What a label says of the days.
abbrev pub Says : Label → ℤ → Type 0
Says (above w k) days = lt_nat days (suc k) ≡ false
Says (at_most w k) days = lt_nat days (suc k) ≡ true
Says (word w) days = Unit
Says (capitalized s) days = Unit

abbrev pub or_empty : Option String → String
or_empty none = ""
or_empty (some s) = s

order_of_days : ℕ → ℕ
order_of_days n =
    if ltb n 5 then 2 else if ltb n 15 then 3 else if ltb n 20 then 4 else if ltb n 30 then 5 else 6

-- The status of `n` days, with the band of days that it stands for.
data Band (n : ℕ) : Type 0 where
  critical_band : n < 5 → ssl_status_from_days (some (pos n)) ≡ some "critical" → Band n
  warning_band : 5 ≤ n → n < 15 → ssl_status_from_days (some (pos n)) ≡ some "warning" → Band n
  caution_band : 15 ≤ n → n < 20 → ssl_status_from_days (some (pos n)) ≡ some "caution" → Band n
  watch_band : 20 ≤ n → n < 30 → ssl_status_from_days (some (pos n)) ≡ some "watch" → Band n
  healthy_band : 30 ≤ n → ssl_status_from_days (some (pos n)) ≡ some "healthy" → Band n

band : (n : ℕ) → Band n
unfolding ssl_status_from_days
band n = elim (dec_lt n 5) [
  | yes a ↦ critical_band a (ground arith)
  | no a ↦ elim (dec_lt n 15) [
    | yes b ↦ warning_band (omega arith) b (ground arith)
    | no b ↦ elim (dec_lt n 20) [
      | yes c ↦ caution_band (omega arith) c (ground arith)
      | no c ↦ elim (dec_lt n 30) [
        | yes d ↦ watch_band (omega arith) d (ground arith)
        | no d ↦ healthy_band (omega arith) (ground arith)
      ]
    ]
  ]
]

order_of_days_lem :
    (n : ℕ) → status_order (or_empty (ssl_status_from_days (some (pos n)))) ≡ order_of_days n
unfolding status_order order_of_days
order_of_days_lem n = elim (band n) [
  | critical_band a e ↦ rw e (ground arith)
  | warning_band a b e ↦ rw e (ground arith)
  | caution_band a b e ↦ rw e (ground arith)
  | watch_band a b e ↦ rw e (ground arith)
  | healthy_band a e ↦ rw e (ground arith)
]

order_of_days_mono : (a b : ℕ) → a ≤ b → order_of_days a ≤ order_of_days b
unfolding order_of_days
order_of_days_mono a b h = ground arith

order_of_days_pos : (a : ℕ) → 1 ≤ order_of_days a
unfolding order_of_days
order_of_days_pos a = ground arith

-- More days left never give a more severe status, in the order of the status column.
pub ssl_status_from_days_mono :
    (a b : ℤ)
    → a ≤ℤ b
    → status_order (or_empty (ssl_status_from_days (some a)))
      ≤ status_order (or_empty (ssl_status_from_days (some b)))
unfolding ssl_status_from_days status_order
ssl_status_from_days_mono (ℤ.pos a) (ℤ.pos b) h =
    rw (order_of_days_lem a, order_of_days_lem b) (order_of_days_mono a b (omega arith))
ssl_status_from_days_mono (ℤ.pos a) (negsuc b) h = absurd (omega arith)
ssl_status_from_days_mono (negsuc a) (ℤ.pos b) h = rw (order_of_days_lem b) (order_of_days_pos b)
ssl_status_from_days_mono (negsuc a) (negsuc b) h = omega arith

expired : (n : ℕ) → ssl_status_from_days (some (negsuc n)) ≡ some "expired"
unfolding ssl_status_from_days
expired n = refl

-- The bound that the label of an SSL status names holds of the days, except at exactly 30 days,
-- which are "Healthy (>30d)".
pub ssl_status_label_lem :
    (days : ℤ)
    → Says (ssl_status_label (or_empty (ssl_status_from_days (some days)))) days ↔ (days ≢ pos 30)
unfolding ssl_status_label
ssl_status_label_lem (ℤ.pos n) = elim (band n) [
  | critical_band a e ↦ rw e (ground arith)
  | warning_band a b e ↦ rw e (ground arith)
  | caution_band a b e ↦ rw e (ground arith)
  | watch_band a b e ↦ rw e (ground arith)
  | healthy_band a e ↦ rw e (ground arith)
]
ssl_status_label_lem (negsuc n) = rw (expired n) (λ h. cc, λ h. tt)
