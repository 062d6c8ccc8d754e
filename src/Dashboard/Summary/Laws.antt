-- ===== src/Dashboard/Summary/Laws.antt =====
-- The numbers of the dashboard fit together.
use domain_ssl_checker.Dashboard.Summary.{
  Summary, Health, Area, domains, certificates, webapps, render_dashboard_summary, percent,
  health_of, web_of, issue, breakdown, change, changes, check_duration,
}
use domain_ssl_checker.Base.{
  ℕ, List, ℤ, ◌≤◌, Option, Bool-cases, pos, some, ◌≡◌, ◌+ℤ◌, All, ◌*◌, if◌then◌else◌, inl, ◌+◌, leb,
  inr, [], none, ◌&&◌, arith, ◌%◌, suc, ◌++◌, ◌<◌, Bool, sub_ℕ, not, ==-self, ◌==◌, true, false,
  refl, zero, ◌||◌, ap, ◌∙◌, sym,
}
use domain_ssl_checker.Doubles.Laws.{rounded-le}
use mathlib.Core.List.{append-nil}
use mathlib.Core.Path.{subst}
use domain_ssl_checker.Base.{◌∷◌}

percent-le : (part count : ℕ) → part ≤ count → percent part count ≤ 100
unfolding percent
percent-le part zero h = omega arith
percent-le part (suc c) h =
    let bound = rounded-le 1 100 part (suc c) (omega arith) (omega arith) in ground arith

abbrev pub total_of : List (Area × ℕ) → ℕ
total_of [] = 0
total_of ((a, n) ∷ ns) = n + total_of ns

total_of-issue :
    (a : Area) (n : ℕ) (rest : List (Area × ℕ)) → total_of (issue a n ++ rest) ≡ n + total_of rest
total_of-issue a n rest = elim (Bool-cases (n == 0)) [
  | inl no_issue ↦ rw no_issue (ground arith)
  | inr issues ↦ rw issues refl
]

abbrev pub IsPositive : Area × ℕ → Type 0
IsPositive (a, n) = 0 < n

issue-IsPositive :
    (a : Area) (n : ℕ) (rest : List (Area × ℕ))
    → All IsPositive rest
    → All IsPositive (issue a n ++ rest)
issue-IsPositive a n rest h = elim (Bool-cases (n == 0)) [
  | inl no_issue ↦ rw no_issue h
  | inr issues ↦ rw issues (ground arith, h)
]

abbrev pub health_in : Area → Health → ℕ
health_in domains h = h.domain
health_in certificates h = h.ssl
health_in webapps h = h.webapp

-- A difference that is shown leads from the health before to the health now.
abbrev pub IsChange : Health → Health → Area × ℤ → Type 0
IsChange before now (a, d) = pos (health_in a before) +ℤ d ≡ pos (health_in a now)

abbrev pub same_area : Area → Area → Bool
same_area domains domains = true
same_area certificates certificates = true
same_area webapps webapps = true
same_area a b = false

abbrev pub mentions : Area → List (Area × ℤ) → Bool
mentions a [] = false
mentions a ((b, d) ∷ cs) = same_area a b || mentions a cs

add-sub : (m n : ℕ) → pos m +ℤ sub_ℕ n m ≡ pos n
unfolding ◌+ℤ◌
add-sub m n = ground arith

change-IsChange :
    (before now : Health) (a : Area) (rest : List (Area × ℤ))
    → All (IsChange before now) rest
    → All (IsChange before now) (change a (health_in a before) (health_in a now) ++ rest)
change-IsChange before now a rest h = elim (Bool-cases (health_in a before == health_in a now)) [
  | inl same ↦ rw same h
  | inr other ↦ rw other (add-sub (health_in a before) (health_in a now), h)
]

changes-IsChange : (before now : Health) → All (IsChange before now) (changes before now)
changes-IsChange before now =
    let last = change-IsChange before now webapps [] tt in
    let w = change webapps before.webapp now.webapp in
    change-IsChange before now domains (change certificates before.ssl now.ssl ++ w) (
      change-IsChange before now certificates w
        (subst (λ (cs : List (Area × ℤ)). All (IsChange before now) cs) (append-nil w) last))

total-breakdown :
    (s : Summary)
    → total_of (breakdown s)
      ≡ s.full_stats.expired
        + s.full_stats.error
        + (s.ssl_stats.expired + s.ssl_stats.error)
        + ((web_of s).down + (web_of s).slow)
total-breakdown s =
    let d = s.full_stats.expired + s.full_stats.error in
    let c = s.ssl_stats.expired + s.ssl_stats.error in
    let w = (web_of s).down + (web_of s).slow in
    total_of-issue domains d (issue certificates c ++ issue webapps w)
    ∙ ap (λ (n : ℕ). d + n) (total_of-issue certificates c (issue webapps w))
    ∙ ap (λ (ns : List (Area × ℕ)). d + (c + total_of ns)) (sym (append-nil (issue webapps w)))
    ∙ ap (λ (n : ℕ). d + (c + n)) (total_of-issue webapps w [])
    ∙ omega arith

breakdown-IsPositive : (s : Summary) → All IsPositive (breakdown s)
breakdown-IsPositive s =
    let d = s.full_stats.expired + s.full_stats.error in
    let c = s.ssl_stats.expired + s.ssl_stats.error in
    let w = issue webapps ((web_of s).down + (web_of s).slow) in
    let last = issue-IsPositive webapps ((web_of s).down + (web_of s).slow) [] tt in
    issue-IsPositive domains d (issue certificates c ++ w) (
      issue-IsPositive certificates c w
        (subst (λ (ns : List (Area × ℕ)). All IsPositive ns) (append-nil w) last))

mentions-changes :
    (before now : Health) (a : Area)
    → mentions a (changes before now) ≡ not (health_in a before == health_in a now)
mentions-changes before now domains = ground arith
mentions-changes before now certificates = ground arith
mentions-changes before now webapps = ground arith

no_changes : (h : Health) → changes h h ≡ []
no_changes h = rw (==-self h.domain, ==-self h.ssl, ==-self h.webapp) refl

-- Where no more rows are healthy than there are, each health is at most 100 percent. The number of issues
-- is the sum of its breakdown, none of which is 0. After an earlier summary, an area has a difference
-- exactly if its health is another one, each difference leads from the health before to the health now,
-- and a second rendering of one summary shows none.
pub render_dashboard_summary_lem :
    (before : Health) (s : Summary) (a : Area)
    → s.full_stats.healthy ≤ s.full_count
    → s.ssl_stats.healthy ≤ s.ssl_count
    → (web_of s).up ≤ (web_of s).total
    → let (prev, shown) = render_dashboard_summary (some before) s in
      let diffs = changes before shown.health in
      (shown.health.domain ≤ 100)
      × (shown.health.ssl ≤ 100)
      × (shown.health.webapp ≤ 100)
      × (total_of shown.breakdown ≡ shown.issue_count)
      × All IsPositive shown.breakdown
      × (shown.changed ≡ some diffs)
      × (mentions a diffs ≡ not (health_in a before == health_in a shown.health))
      × All (IsChange before shown.health) diffs
      × ((render_dashboard_summary prev s).1.changed ≡ some [])
unfolding render_dashboard_summary health_of
render_dashboard_summary_lem before s a d c w =
    let h = health_of s in
    (
      percent-le _ _ d,
      percent-le _ _ c,
      percent-le _ _ w,
      total-breakdown s,
      breakdown-IsPositive s,
      refl,
      mentions-changes before h a,
      changes-IsChange before h,
      ap some (no_changes h),
    )

-- What the text of a duration says, in seconds.
abbrev pub said_seconds : Option ℕ × ℕ → ℕ
said_seconds (none, s) = s
said_seconds (some m, s) = m * 60 + s

-- The minutes of the duration of a check are rounded, though its seconds are shown beside them: what is
-- shown is a minute too long where 30 seconds or more are left over, and right elsewhere.
pub check_duration_lem :
    (d : ℕ) → said_seconds (check_duration d) ≡ (if leb 60 d && leb 30 (d % 60) then d + 60 else d)
unfolding check_duration
check_duration_lem d = ground arith
