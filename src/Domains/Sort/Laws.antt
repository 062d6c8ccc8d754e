-- ===== src/Domains/Sort/Laws.antt =====
-- What `_sortDomains` returns, for every column and direction.
use Prim.Native.Nat.{Ordering}
use mathlib.Core.List.{Perm}
use domain_ssl_checker.Sorting.{flip, is_gt, IsComparison, is_eq}
use domain_ssl_checker.Sorting.Laws.{
  IsComparison-on, IsComparison-flip, IsComparison-compare, IsComparison-eq, IsSortedBy,
  sort_by-IsSortedBy, sort_by-perm, sort_by-stable,
}
use domain_ssl_checker.Domains.Sort.{
  compare_domains, sort_domains, domain_comparator, status_order, sort_days_value, checked_ms,
}
use domain_ssl_checker.Base.{
  compare_ℤ, arith, String, Bool-cases, str_eq, inl, ◌≡◌, inr, List, true, false, filter, refl,
  text_or, [],
}
use domain_ssl_checker.Platform.{Platform}
use domain_ssl_checker.Domains.{ListType, SortState, Dir, asc, Domain, or_pending, desc, status_of}

IsComparison-compare_ℤ : IsComparison compare_ℤ
IsComparison-compare_ℤ = record { flips = λ a b. ground arith; trans = λ a b c p q. ground arith }

-- Two elements that compare equal to a third one do not compare greater.
eq_together {ℓ} :
    {A : Type ℓ} {cmp : A → A → Ordering}
    → IsComparison cmp
    → (d x y : A) → is_eq (cmp d x) ≡ true
    → is_eq (cmp d y) ≡ true
    → is_gt (cmp x y) ≡ false
eq_together {cmp = cmp} c d x y h k =
    c.trans x d y (rw (c.flips d x) (flip-eq (cmp d x) h)) (le_of_eq (cmp d y) k)
  where
    flip-eq : (o : Ordering) → is_eq o ≡ true → is_gt (flip o) ≡ false
    flip-eq Ordering.lt h = cc
    flip-eq Ordering.eq h = refl
    flip-eq Ordering.gt h = cc

    le_of_eq : (o : Ordering) → is_eq o ≡ true → is_gt o ≡ false
    le_of_eq Ordering.lt h = refl
    le_of_eq Ordering.eq h = refl
    le_of_eq Ordering.gt h = cc

module _ (p : Platform) (collates : IsComparison p.locale_compare) (type : ListType) where
  compare_domains-IsComparison :
      (field : String) → IsComparison (λ a b. compare_domains p type field a b)
  unfolding compare_domains
  compare_domains-IsComparison field = elim (Bool-cases (str_eq field "url")) [
    | inl e ↦ rw e (IsComparison-on collates (λ d. p.lower d.url))
    | inr e ↦ rw e (elim (Bool-cases (str_eq field "status")) [
      | inl e ↦
          rw e (
            IsComparison-on IsComparison-compare
              (λ d. status_order (or_pending (status_of type d))))
      | inr e ↦ rw e (elim (Bool-cases (str_eq field "days")) [
        | inl e ↦ rw e (IsComparison-on IsComparison-compare_ℤ (sort_days_value p type))
        | inr e ↦ rw e (elim (Bool-cases (str_eq field "checked")) [
          | inl e ↦ rw e (IsComparison-on IsComparison-compare (checked_ms p))
          | inr e ↦ rw e (elim (Bool-cases (str_eq field "registrar")) [
            | inl e ↦ rw e (IsComparison-on collates (λ d. p.lower (text_or d.domain_registrar [])))
            | inr e ↦ rw e (elim (Bool-cases (str_eq field "issuer")) [
              | inl e ↦ rw e (IsComparison-on collates (λ d. p.lower (text_or d.ssl_issuer [])))
              | inr e ↦ rw e IsComparison-eq
            ])
          ])
        ])
      ])
    ])
  ]

  directed-IsComparison : (s : SortState) → IsComparison (domain_comparator p type s)
  directed-IsComparison s = by_dir s.field s.dir
    where
      by_dir :
          (field : String) (dir : Dir)
          → IsComparison (domain_comparator p type (record { field = field; dir = dir }))
      by_dir field asc = compare_domains-IsComparison field
      by_dir field desc = IsComparison-flip (compare_domains-IsComparison field)

  -- If `localeCompare` is consistent, the rows of the sorted list are those of the list, in the
  -- order of the column and direction, and rows that compare equal stand as they stood before.
  pub sort_domains_lem :
      (s : SortState) (ds : List Domain)
      → Perm (sort_domains p type s ds) ds
        × IsSortedBy (domain_comparator p type s) (sort_domains p type s ds)
        × ((d : Domain)
            → filter (λ e. is_eq (domain_comparator p type s d e)) (sort_domains p type s ds)
              ≡ filter (λ e. is_eq (domain_comparator p type s d e)) ds)
  unfolding sort_domains
  sort_domains_lem s ds =
      let c = directed-IsComparison s in
      (
        sort_by-perm _ ds,
        sort_by-IsSortedBy _ c ds,
        λ d. sort_by-stable _ _ (λ x y. eq_together c d x y) ds,
      )
