-- ===== src/Domains/Filter/Laws.antt =====
-- `getFilteredDomains` against one test for each row.
use domain_ssl_checker.Base.{
  ◌≡◌, refl, sym, Option, none, some, String, str_eq, Bool, true, false, not, ◌||◌, ◌&&◌, List, [],
  ◌∷◌, if◌then◌else◌, truthy, filter, filter-filter, filter-true, filter_if, Bool-cases, inl, inr,
}
use domain_ssl_checker.Platform.{Platform}
use domain_ssl_checker.Domains.{ListType, Domain, ListState, status_of, status_is}
use domain_ssl_checker.Domains.Filter.{
  by_query, by_chip, by_tld, filter_by_chip, get_filtered_domains, matches_query, has_tld,
}

-- The statuses that a chip stands for; `none` where the chip lets every row through.
abbrev pub chip_statuses : String → Option (List String)
chip_statuses chip =
    if str_eq chip "healthy"
    then some ("healthy" ∷ [])
    else if str_eq chip "warning" || str_eq chip "watch"
    then some ("watch" ∷ "warning" ∷ [])
    else if str_eq chip "caution"
    then some ("caution" ∷ [])
    else if str_eq chip "critical"
    then some ("critical" ∷ [])
    else if str_eq chip "expired"
    then some ("expired" ∷ [])
    else if str_eq chip "error"
    then some ("error" ∷ [])
    else none

abbrev pub is_one_of : Option String → List String → Bool
is_one_of status [] = false
is_one_of status (s ∷ []) = status_is status s
is_one_of status (s ∷ t ∷ ss) = status_is status s || is_one_of status (t ∷ ss)

abbrev pub allowed : Option (List String) → Option String → Bool
allowed none status = true
allowed (some ss) status = is_one_of status ss

abbrev pub chip_allows : ListType → String → Domain → Bool
chip_allows type chip d = allowed (chip_statuses chip) (status_of type d)

filter_by_chip-eq-filter :
    (type : ListType) (chip : String) (ds : List Domain)
    → filter_by_chip type chip ds ≡ filter (λ d. allowed (chip_statuses chip) (status_of type d)) ds
unfolding filter_by_chip
filter_by_chip-eq-filter type chip ds = elim (Bool-cases (str_eq chip "healthy")) [
  | inl e ↦ rw (e, chip_statuses)
  | inr e ↦
      rw (e, chip_statuses)
        (elim (Bool-cases (str_eq chip "warning" || str_eq chip "watch")) [
          | inl e ↦ rw (e, chip_statuses)
          | inr e ↦
              rw (e, chip_statuses)
                (elim (Bool-cases (str_eq chip "caution")) [
                  | inl e ↦ rw (e, chip_statuses)
                  | inr e ↦
                      rw (e, chip_statuses)
                        (elim (Bool-cases (str_eq chip "critical")) [
                          | inl e ↦ rw (e, chip_statuses)
                          | inr e ↦
                              rw (e, chip_statuses)
                                (elim (Bool-cases (str_eq chip "expired")) [
                                  | inl e ↦ rw (e, chip_statuses)
                                  | inr e ↦
                                      rw (e, chip_statuses)
                                        (elim (Bool-cases (str_eq chip "error")) [
                                          | inl e ↦ rw (e, chip_statuses)
                                          | inr e ↦ rw (e, chip_statuses) (sym (filter-true ds))
                                        ])
                                ])
                        ])
                ])
        ])
]

-- A filter behind a negated test is one filter.
filter_if_not :
    (b : Bool) (q : Domain → Bool) (ds : List Domain)
    → (if not b then filter q ds else ds) ≡ filter (λ d. b || q d) ds
filter_if_not true q ds = sym (filter-true ds)
filter_if_not false q ds = refl

module _ (p : Platform) (type : ListType) (s : ListState) where
  -- The search, the chip and the TLD accept the row.
  abbrev pub is_shown : Domain → Bool
  is_shown d =
      (not (truthy (some (p.lower s.search))) || matches_query p (p.lower s.search) d)
      && (str_eq s.chip "all" || chip_allows type s.chip d)
      && (not (truthy (some s.tld)) || has_tld s.tld d)

  by_chip-eq-filter :
      (ds : List Domain)
      → by_chip p type s.chip ds
        ≡ filter (λ d. str_eq s.chip "all" || allowed (chip_statuses s.chip) (status_of type d)) ds
  unfolding by_chip
  by_chip-eq-filter ds = rw filter_by_chip-eq-filter (filter_if_not _ _ ds)

  -- The three filters are one test of each row.
  pub get_filtered_domains-eq-filter : get_filtered_domains p type s ≡ filter is_shown s.cached
  unfolding get_filtered_domains by_query by_tld
  get_filtered_domains-eq-filter = rw (filter_if, by_chip-eq-filter, filter_if) (simp filter-filter)
