-- ===== src/Deletes/Laws.antt =====
-- What a bulk delete leaves.
use mathlib.Core.List.{append-nil}
use domain_ssl_checker.Selection.Sets.{has-filter, same_answer}
use domain_ssl_checker.Deletes.{
  failed_ids, success_ids, bulk_delete, DeleteEffect, delete_ids, DeleteState, sent_delete,
  delete_toast,
}
use domain_ssl_checker.Base.{
  filter, ℕ, Bool, List, ◌≡◌, ◌&&◌, ◌∷◌, map, not, ◌∙◌, String, arith, [], ◌++◌, ◌<◌, ap, length,
  refl, str_eq, false, true, if◌then◌else◌,
}
use domain_ssl_checker.Selection.{has}
use domain_ssl_checker.Checks.{is_nil}

has-failed_ids :
    (succeeds : ℕ → Bool) (id : ℕ) (ids : List ℕ)
    → has id (failed_ids succeeds ids) ≡ (has id ids && not (succeeds id))
unfolding failed_ids
has-failed_ids succeeds id [] = ground arith
has-failed_ids succeeds id (x ∷ ids) =
    ground (arith, has-failed_ids succeeds id ids, same_answer succeeds x id)

has-success_ids :
    (succeeds : ℕ → Bool) (id : ℕ) (ids : List ℕ)
    → has id (success_ids succeeds ids) ≡ (has id ids && succeeds id)
unfolding success_ids
has-success_ids succeeds id ids =
    has-filter _ id ids ∙ rw (has-failed_ids succeeds id ids) (ground arith)

filter-same {ℓ} :
    {A : Type ℓ} (q r : A → Bool) (xs : List A) → ((x : A) → q x ≡ r x) → filter q xs ≡ filter r xs
filter-same q r [] h = refl
filter-same q r (x ∷ xs) h = rw (h x, filter-same q r xs h) refl

abbrev pub requests_of : List DeleteEffect → List ℕ
requests_of [] = []
requests_of (sent_delete id ∷ es) = id ∷ requests_of es
requests_of (e ∷ es) = requests_of es

requests_of-map :
    (ids : List ℕ) (es : List DeleteEffect)
    → requests_of (map sent_delete ids ++ es) ≡ ids ++ requests_of es
requests_of-map [] es = refl
requests_of-map (id ∷ ids) es = ap (id ∷◌) (requests_of-map ids es)

is_nil-false : (ids : List ℕ) → 0 < length ids → is_nil ids ≡ false
is_nil-false [] h = absurd (omega arith)
is_nil-false (id ∷ ids) h = refl

bulk_delete-runs :
    (succeeds : ℕ → Bool) (s : DeleteState)
    → 0 < length s.selected
    → bulk_delete "admin" true succeeds s ≡ delete_ids succeeds s.selected s
unfolding bulk_delete
bulk_delete-runs succeeds s h =
    ap (λ b. if b then (s, []) else delete_ids succeeds s.selected s) (is_nil-false s.selected h)

bulk_delete-refused :
    (succeeds : ℕ → Bool) (s : DeleteState) (role : String) (confirmed : Bool)
    → (str_eq role "admin" && confirmed) ≡ false
    → (bulk_delete role confirmed succeeds s).0 ≡ s
unfolding bulk_delete
bulk_delete-refused succeeds s role confirmed h = ground arith

delete_ids-cached :
    (succeeds : ℕ → Bool) (ids : List ℕ) (s : DeleteState)
    → (delete_ids succeeds ids s).0.cached
      ≡ filter (λ d. not (has d.id ids && succeeds d.id)) s.cached
unfolding delete_ids
delete_ids-cached succeeds ids s =
    filter-same _ _ s.cached (λ d. ap not (has-success_ids succeeds d.id ids))

requests_of-toast :
    (n ok failed : ℕ) (es : List DeleteEffect)
    → requests_of (delete_toast n ok failed ∷ es) ≡ requests_of es
requests_of-toast n ok failed es = ground arith

requests_of-delete_ids :
    (succeeds : ℕ → Bool) (ids : List ℕ) (s : DeleteState)
    → requests_of (delete_ids succeeds ids s).1 ≡ ids
unfolding delete_ids
requests_of-delete_ids succeeds ids s =
    requests_of-map ids _
    ∙ ap (ids ++◌) (
        requests_of-toast (length ids) (length (success_ids succeeds ids))
          (length (failed_ids succeeds ids)) _)
    ∙ append-nil ids

-- A confirmed delete by an admin, with some row selected, sends one request for each selected row.
-- From the list it takes exactly the selected rows whose delete the server accepts, in place, and
-- it empties the selection. Without an admin or without the confirmation, rows and selection stay.
pub bulk_delete_lem :
    (succeeds : ℕ → Bool) (s : DeleteState) (role : String) (confirmed : Bool)
    → 0 < length s.selected
    → (str_eq role "admin" && confirmed) ≡ false
    → ((bulk_delete "admin" true succeeds s).0.cached
        ≡ filter (λ d. not (has d.id s.selected && succeeds d.id)) s.cached)
      × ((bulk_delete "admin" true succeeds s).0.selected ≡ [])
      × (requests_of (bulk_delete "admin" true succeeds s).1 ≡ s.selected)
      × ((bulk_delete role confirmed succeeds s).0 ≡ s)
unfolding delete_ids
bulk_delete_lem succeeds s role confirmed some_id refused =
    let runs = bulk_delete-runs succeeds s some_id in
    (
      ap (λ r. r.0.cached) runs ∙ delete_ids-cached succeeds s.selected s,
      ap (λ r. r.0.selected) runs,
      ap (λ r. requests_of r.1) runs ∙ requests_of-delete_ids succeeds s.selected s,
      bulk_delete-refused succeeds s role confirmed refused,
    )
