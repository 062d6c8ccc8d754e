-- ===== src/Groups.antt =====
-- The rows of a page in groups of one status: `renderGroupedCards`, the headers that fold a group,
-- the counts of `renderDomains`, `updateStats` and `updateRiskBar`, and the groups of the web apps.
pub mod Laws
mod Tests
use domain_ssl_checker.Base.{
  filter, List, String, ◌∷◌, Bool, ℕ, if◌then◌else◌, [], ◌++◌, ◌+◌, str_eq, ltb, not, suc,
}
use domain_ssl_checker.Domains.{ListType, Domain, status_of, or_pending}

-- An object of lists by status: `groups`.
abbrev pub Groups : Type 0
Groups = List (String × List Domain)

-- `groups[status].push(d)`, where the list is made first if it is missing
abbrev pub push_row : String → Domain → Groups → Groups
push_row status d [] = (status, d ∷ []) ∷ []
push_row status d ((k, ds) ∷ gs) =
    let rest = push_row status d gs in
    if str_eq k status then (k, ds ++ d ∷ []) ∷ gs else (k, ds) ∷ rest

-- The loop `domains.forEach(...)`.
unfoldable pub collect_groups : ListType → Groups → List Domain → Groups
collect_groups type gs [] = gs
collect_groups type gs (d ∷ ds) =
    collect_groups type (push_row (or_pending (status_of type d)) d gs) ds

-- `groups[status]`, empty where it is missing
abbrev pub group_of : String → Groups → List Domain
group_of status [] = []
group_of status ((k, ds) ∷ gs) =
    let rest = group_of status gs in if str_eq k status then ds else rest

abbrev pub status_order_shown : List String
status_order_shown =
    "expired" ∷ "error" ∷ "critical" ∷ "warning" ∷ "caution" ∷ "watch" ∷ "healthy" ∷ "pending" ∷ []

-- A group as it is shown: its status, whether it is folded, and its rows.
pub record Group : Type 0 where
  pub status : String
  pub collapsed : Bool
  pub rows : List Domain

abbrev pub shown_group : (String → Bool) → String → List Domain → List Group
shown_group collapsed status [] = []
shown_group collapsed status (d ∷ ds) =
    record { status = status; collapsed = collapsed status; rows = d ∷ ds } ∷ []

abbrev pub shown_groups : (String → Bool) → Groups → List String → List Group
shown_groups collapsed gs [] = []
shown_groups collapsed gs (status ∷ order) =
    shown_group collapsed status (group_of status gs) ++ shown_groups collapsed gs order

-- `renderGroupedCards`; `collapsed` is `_collapsedGroups` at the keys of the list.
unfoldable pub render_grouped : ListType → (String → Bool) → List Domain → List Group
render_grouped type collapsed ds =
    shown_groups collapsed (collect_groups type [] ds) status_order_shown

-- A click on a header: `_collapsedGroups[key] = !_collapsedGroups[key]`
unfoldable pub toggle_group : String → (String → Bool) → String → Bool
toggle_group status collapsed s = if str_eq s status then not (collapsed s) else collapsed s

-- `stats[st] = (stats[st] || 0) + 1`, and the counts of all rows
abbrev pub count_row : String → (String → ℕ) → String → ℕ
count_row status stats s = if str_eq status s then suc (stats s) else stats s

unfoldable pub collect_stats : ListType → (String → ℕ) → List Domain → String → ℕ
collect_stats type stats [] = stats
collect_stats type stats (d ∷ ds) =
    collect_stats type (count_row (or_pending (status_of type d)) stats) ds

abbrev pub stats_of : ListType → List Domain → String → ℕ
stats_of type ds = collect_stats type (λ s. 0) ds

abbrev pub categories : List String
categories =
    "healthy" ∷ "watch" ∷ "caution" ∷ "warning" ∷ "critical" ∷ "expired" ∷ "error" ∷ "pending" ∷ []

abbrev pub sum_over : (String → ℕ) → List String → ℕ
sum_over stats [] = 0
sum_over stats (s ∷ ss) = stats s + sum_over stats ss

-- The total of `updateStats` and of `updateRiskBar`.
unfoldable pub stats_total : (String → ℕ) → ℕ
stats_total stats = sum_over stats categories

-- A segment of the risk bar: its share as the two numbers of the quotient.
unfoldable pub risk_share : (String → ℕ) → String → ℕ × ℕ
risk_share stats s =
    let total = stats_total stats in if ltb 0 total then (stats s, total) else (0, 1)
