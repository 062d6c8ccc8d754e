-- ===== src/Domains/Tld.antt =====
-- `extractTlds`: the options of the TLD select, from the rows of the list.
use Prim.Native.Nat.{Ordering, compare}
use domain_ssl_checker.Sorting.{sort_by, insert_by}
use domain_ssl_checker.Domains.{Domain}
use domain_ssl_checker.Domains.Filter.{tld_of, found_is, has_tld}
use domain_ssl_checker.Base.{
  Text, Option, List, Bool, any, if◌then◌else◌, some, ◌∷◌, [], ◌≡◌, text_eq, ◌++◌, none, ◌||◌, ◌∙◌,
  true, arith, ap, text_eq_iff, refl, Bool-cases, inl, inr, any-append,
}

-- The order of `sort()` without a comparator: by code units.
abbrev pub compare_text : Text → Text → Ordering
compare_text [] [] = Ordering.eq
compare_text [] (y ∷ ys) = Ordering.lt
compare_text (x ∷ xs) [] = Ordering.gt
compare_text (x ∷ xs) (y ∷ ys) = elim (compare x y) [
  | Ordering.lt ↦ Ordering.lt
  | Ordering.gt ↦ Ordering.gt
  | Ordering.eq ↦ compare_text xs ys
]

abbrev pub contains : Text → List Text → Bool
contains t us = any (λ u. text_eq u t) us

-- `set.add(t)`, on the set's entries in insertion order
abbrev set_add : Text → List Text → List Text
set_add t us = if contains t us then us else us ++ t ∷ []

abbrev add_found : Option Text → List Text → List Text
add_found none us = us
add_found (some t) us = set_add t us

-- The loop `domains.forEach(...)`.
collect_tlds : List Text → List Domain → List Text
collect_tlds us [] = us
collect_tlds us (d ∷ ds) = collect_tlds (add_found (tld_of d.url) us) ds

unfoldable pub extract_tlds : List Domain → List Text
unfolding collect_tlds
extract_tlds ds = sort_by compare_text (collect_tlds [] ds)

any-insert_by {ℓ} :
    {A : Type ℓ} (cmp : A → A → Ordering) (q : A → Bool) (x : A) (ys : List A)
    → any q (insert_by cmp x ys) ≡ (q x || any q ys)
unfolding insert_by
any-insert_by cmp q x [] = refl
any-insert_by cmp q x (y ∷ ys) = ground (arith, any-insert_by cmp q x ys)

any-sort_by {ℓ} :
    {A : Type ℓ} (cmp : A → A → Ordering) (q : A → Bool) (xs : List A)
    → any q (sort_by cmp xs) ≡ any q xs
unfolding sort_by
any-sort_by cmp q [] = refl
any-sort_by cmp q (x ∷ xs) =
    any-insert_by cmp q x (sort_by cmp xs) ∙ ap (q x ||◌) (any-sort_by cmp q xs)

contains_of_text_eq :
    (t u : Text) (us : List Text) → contains u us ≡ true → text_eq u t ≡ true → contains t us ≡ true
contains_of_text_eq t u us h e = rw (← text_eq_iff u t e) h

contains-add_found :
    (t : Text) (o : Option Text) (us : List Text)
    → contains t (add_found o us) ≡ (contains t us || found_is o t)
contains-add_found t none us = ground arith
contains-add_found t (some u) us = elim (Bool-cases (contains u us)) [
  | inl old ↦ rw old (ground (arith, contains_of_text_eq t u us))
  | inr new ↦ rw (new, any-append) (ground arith)
]

contains-collect_tlds :
    (t : Text) (us : List Text) (ds : List Domain)
    → contains t (collect_tlds us ds) ≡ (contains t us || any (has_tld t) ds)
unfolding collect_tlds has_tld
contains-collect_tlds t us [] = ground arith
contains-collect_tlds t us (d ∷ ds) =
    contains-collect_tlds t (add_found (tld_of d.url) us) ds ∙ rw contains-add_found (ground arith)

-- The select offers a text exactly when choosing it leaves some row of the list.
pub extract_tlds_lem :
    (t : Text) (ds : List Domain) → contains t (extract_tlds ds) ≡ any (has_tld t) ds
unfolding extract_tlds
extract_tlds_lem t ds =
    any-sort_by compare_text (λ u. text_eq u t) _ ∙ contains-collect_tlds t [] ds
