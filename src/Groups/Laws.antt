-- ===== src/Groups/Laws.antt =====
-- What the groups show.
use mathlib.Core.List.{append-nil}
use domain_ssl_checker.Base.{
  filter, ◌∷◌, String, List, str_eq, Bool, ◌≡◌, ◌++◌, true, [], str_eq_iff, if◌then◌else◌, length,
  Bool-cases, sym, ◌∙◌, inl, ap, ℕ, refl, arith, inr, append_assoc, ◌+◌, false,
}
use domain_ssl_checker.Domains.{ListType, Domain, or_pending, status_of}
use domain_ssl_checker.Groups.{
  collect_groups, render_grouped, Groups, Group, group_of, push_row, status_order_shown, stats_of,
  collect_stats, shown_group, shown_groups, count_row,
}

-- The row has the status.
abbrev pub has_status : ListType → String → Domain → Bool
has_status type s d = str_eq (or_pending (status_of type d)) s

eq_text : (a b : String) → str_eq a b ≡ true → a ≡ b
eq_text a b h = (str_eq_iff a b).0 h

group_of-push_row :
    (s status : String) (d : Domain) (gs : Groups)
    → group_of s (push_row status d gs)
      ≡ (if str_eq status s then group_of s gs ++ d ∷ [] else group_of s gs)
group_of-push_row s status d [] = elim (Bool-cases (str_eq status s)) [
  | inl e ↦ rw e refl
  | inr e ↦ rw e refl
]
group_of-push_row s status d ((k, ds) ∷ gs) = elim (Bool-cases (str_eq k status)) [
  | inl same ↦
      let k_s : str_eq k s ≡ str_eq status s = ap (λ x. str_eq x s) (eq_text k status same) in
      elim (Bool-cases (str_eq status s)) [
        | inl e ↦ rw (same, k_s, e) refl
        | inr e ↦ rw (same, k_s, e) refl
      ]
  | inr other ↦ elim (Bool-cases (str_eq k s)) [
    | inl e ↦ rw (other, e, other_status e other) refl
    | inr e ↦ rw (other, e) (group_of-push_row s status d gs)
  ]
]
  where
    other_status : str_eq k s ≡ true → str_eq k status ≡ false → str_eq status s ≡ false
    other_status e other = elim (Bool-cases (str_eq status s)) [
      | inl f ↦
          ground (arith, other, (str_eq_iff k status).1 (eq_text k s e ∙ sym (eq_text status s f)))
      | inr f ↦ f
    ]

group_of-collect_groups :
    (type : ListType) (s : String) (gs : Groups) (ds : List Domain)
    → group_of s (collect_groups type gs ds) ≡ group_of s gs ++ filter (has_status type s) ds
unfolding collect_groups
group_of-collect_groups type s gs [] = sym (append-nil (group_of s gs))
group_of-collect_groups type s gs (d ∷ ds) =
    group_of-collect_groups type s (push_row (or_pending (status_of type d)) d gs) ds
    ∙ ap (λ xs. xs ++ filter (has_status type s) ds)
        (group_of-push_row s (or_pending (status_of type d)) d gs)
    ∙ elim (Bool-cases (has_status type s d)) [
      | inl e ↦ rw e (append_assoc (group_of s gs) (d ∷ []) (filter (has_status type s) ds))
      | inr e ↦ rw e refl
    ]

collect_stats-count :
    (type : ListType) (s : String) (stats : String → ℕ) (ds : List Domain)
    → collect_stats type stats ds s ≡ stats s + length (filter (has_status type s) ds)
unfolding collect_stats
collect_stats-count type s stats [] = omega arith
collect_stats-count type s stats (d ∷ ds) =
    collect_stats-count type s (count_row (or_pending (status_of type d)) stats) ds
    ∙ elim (Bool-cases (has_status type s d)) [
      | inl e ↦ rw e (omega arith)
      | inr e ↦ rw e (omega arith)
    ]

-- The rows of the groups, one after the other.
abbrev pub shown_rows : List Group → List Domain
shown_rows [] = []
shown_rows (g ∷ gs) = g.rows ++ shown_rows gs

-- The group of each status, in the order of the page.
abbrev pub rows_by_status : ListType → List String → List Domain → List Domain
rows_by_status type [] ds = []
rows_by_status type (s ∷ order) ds = filter (has_status type s) ds ++ rows_by_status type order ds

shown_rows-group :
    (collapsed : String → Bool) (status : String) (ds : List Domain) (gs : List Group)
    → shown_rows (shown_group collapsed status ds ++ gs) ≡ ds ++ shown_rows gs
shown_rows-group collapsed status [] gs = refl
shown_rows-group collapsed status (d ∷ ds) gs = refl

shown_rows-groups :
    (type : ListType) (collapsed : String → Bool) (ds : List Domain) (order : List String)
    → shown_rows (shown_groups collapsed (collect_groups type [] ds) order)
      ≡ rows_by_status type order ds
shown_rows-groups type collapsed ds [] = refl
shown_rows-groups type collapsed ds (s ∷ order) =
    shown_rows-group collapsed s (group_of s (collect_groups type [] ds))
      (shown_groups collapsed (collect_groups type [] ds) order)
    ∙ rw (group_of-collect_groups type s [] ds, shown_rows-groups type collapsed ds order) refl

-- A page in groups shows for each of the eight statuses, in their order, the rows of that status, in
-- the order that they have on the page; a row with another status is not shown. The count of a
-- status is the number of its rows.
pub render_grouped_lem :
    (type : ListType) (collapsed : String → Bool) (s : String) (ds : List Domain)
    → (shown_rows (render_grouped type collapsed ds) ≡ rows_by_status type status_order_shown ds)
      × (stats_of type ds s ≡ length (filter (has_status type s) ds))
unfolding render_grouped
render_grouped_lem type collapsed s ds = (
  shown_rows-groups type collapsed ds status_order_shown,
  collect_stats-count type s (λ t. 0) ds ∙ omega arith,
)
