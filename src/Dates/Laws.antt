-- ===== src/Dates/Laws.antt =====
-- What the texts of dates and sizes tell.
use domain_ssl_checker.Dates.{just_now, seconds, minutes, hours, days, months, Ago, time_ago}
use domain_ssl_checker.Base.{ℕ, ◌≡◌, ◌/◌, ◌≤◌, ◌+◌, ltb, arith, Bool-cases, false, inl, inr, refl}

-- The unit that is shown, in seconds, and how many of them.
abbrev pub unit_of : Ago → ℕ
unit_of just_now = 1
unit_of (seconds n) = 1
unit_of (minutes n) = 60
unit_of (hours n) = 3600
unit_of (days n) = 86400
unit_of (months n) = 2592000

abbrev pub amount_of : Ago → ℕ
amount_of just_now = 0
amount_of (seconds n) = n
amount_of (minutes n) = n
amount_of (hours n) = n
amount_of (days n) = n
amount_of (months n) = n

below : (a b : ℕ) → ltb a b ≡ false → b ≤ a
below a b h = ground arith

module _ (sec : ℕ) where
  by_day : sec / 60 / 60 / 24 ≡ sec / 86400
  by_day = omega arith

  by_month : sec / 60 / 60 / 24 / 30 ≡ sec / 2592000
  by_month = omega arith

  by_hour : sec / 60 / 60 ≡ sec / 3600
  by_hour = omega arith

-- The amount that is shown is the whole number of its units in the seconds that have passed; it is
-- at least one, except for seconds.
pub time_ago_lem :
    (diff : ℕ)
    → (amount_of (time_ago diff) ≡ diff / 1000 / unit_of (time_ago diff))
      × (1 ≤ amount_of (time_ago diff) + 1 / unit_of (time_ago diff))
unfolding time_ago
time_ago_lem diff = elim (Bool-cases (ltb (diff / 1000) 60)) [
  | inl a ↦ rw a (omega arith, omega arith)
  | inr a ↦ rw a (elim (Bool-cases (ltb (diff / 1000 / 60) 60)) [
    | inl b ↦ rw b (refl, let h = below _ _ a in omega arith)
    | inr b ↦ rw b (elim (Bool-cases (ltb (diff / 1000 / 60 / 60) 24)) [
      | inl c ↦ rw c (by_hour (diff / 1000), let h = below _ _ b in omega arith)
      | inr c ↦ rw c (elim (Bool-cases (ltb (diff / 1000 / 60 / 60 / 24) 30)) [
        | inl d ↦ rw d (by_day (diff / 1000), let h = below _ _ c in omega arith)
        | inr d ↦ rw d (by_month (diff / 1000), let h = below _ _ d in omega arith)
      ])
    ])
  ])
]
