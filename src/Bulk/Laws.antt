-- ===== src/Bulk/Laws.antt =====
-- What the bulk edit of the tags sends for each row.
use mathlib.Core.Option
use domain_ssl_checker.Base.{
  filter, find?, false, ==-self, append_assoc, ==_iff, length, ℕ, String, Text, List, Bool,
  if◌then◌else◌, text_eq, Option, str_eq, ◌≡◌, none, ◌||◌, true, ◌&&◌, Bool-cases, ◌∷◌, not, ap,
  inl, text_eq_iff, arith, inr, ◌==◌, [], some, refl, ◌++◌, ◌∙◌, any-append,
}
use domain_ssl_checker.Bulk.{
  retag, BulkEffect, has_text, unique_from, sent_tags, tag_requests, tag_request, TagRow, tags_of,
  tags_updated, submit_bulk_tags, request_with, no_tags, parse_tags, request_for,
}
use domain_ssl_checker.Selection.{has}

-- The text of the first request for the id.
abbrev pub sent_for : ℕ → List BulkEffect → Option Text
sent_for id [] = none
sent_for id (sent_tags x t ∷ es) = let rest = sent_for id es in if x == id then some t else rest
sent_for id (e ∷ es) = sent_for id es

abbrev pub option_bind : (Text → Option (List Text)) → Option Text → Option (List Text)
option_bind parse none = none
option_bind parse (some t) = parse t

-- The numbers in the toasts.
abbrev pub updated_toasts : List BulkEffect → List ℕ
updated_toasts [] = []
updated_toasts (tags_updated n ∷ es) = n ∷ updated_toasts es
updated_toasts (e ∷ es) = updated_toasts es

-- What the edit means for one tag: it has the tag afterwards, where `was` is that it had it, and
-- `named` that the input names it.
abbrev pub tag_after : String → Bool → Bool → Bool
tag_after mode named was =
    if str_eq mode "replace"
    then named
    else if str_eq mode "add"
    then was || named
    else if str_eq mode "remove"
    then was && not named
    else was

same_text : (t u : Text) (ts : List Text) → text_eq t u ≡ true → has_text t ts ≡ has_text u ts
same_text t u ts e = ap (λ x. has_text x ts) (text_eq_iff t u e)

has_text-unique_from :
    (t : Text) (seen ts : List Text)
    → has_text t (unique_from seen ts) ≡ (has_text t ts && not (has_text t seen))
has_text-unique_from t seen [] = refl
has_text-unique_from t seen (u ∷ us) = elim (Bool-cases (has_text u seen)) [
  | inl old ↦ rw (old, has_text-unique_from t seen us) (ground (arith, same_text t u seen))
  | inr new ↦ rw (new, has_text-unique_from t (u ∷ seen) us) (ground (arith, same_text t u seen))
]

has_text-filter :
    (t : Text) (new ts : List Text)
    → has_text t (filter (λ u. not (has_text u new)) ts) ≡ (has_text t ts && not (has_text t new))
has_text-filter t new [] = refl
has_text-filter t new (u ∷ us) = elim (Bool-cases (has_text u new)) [
  | inl old ↦ rw (old, has_text-filter t new us) (ground (arith, same_text t u new))
  | inr other ↦ rw (other, has_text-filter t new us) (ground (arith, same_text t u new))
]

has_text-retag :
    (mode : String) (t : Text) (new old : List Text)
    → has_text t (retag mode new old) ≡ tag_after mode (has_text t new) (has_text t old)
unfolding retag
has_text-retag mode t new old = elim (Bool-cases (str_eq mode "replace")) [
  | inl e ↦ rw e refl
  | inr e ↦ rw e (elim (Bool-cases (str_eq mode "add")) [
    | inl f ↦ rw f (
        has_text-unique_from t [] (old ++ new) ∙ rw (any-append (text_eq t) old new) (ground arith))
    | inr f ↦ rw f (elim (Bool-cases (str_eq mode "remove")) [
      | inl g ↦ rw g (has_text-filter t new old)
      | inr g ↦ rw g refl
    ])
  ])
]

module _ (parse : Text → Option (List Text)) (write : List Text → Text) (mode : String)
    (new : List Text) (rows : List TagRow) where
  request_with-other :
      (x id : ℕ) (o : Option (List Text)) (es : List BulkEffect)
      → (x == id) ≡ false
      → sent_for id (request_with parse write x o ++ es) ≡ sent_for id es
  request_with-other x id none es h = refl
  request_with-other x id (some ts) es h = rw h refl

  tag_request-other :
      (x id : ℕ) (o : Option TagRow) (es : List BulkEffect)
      → (x == id) ≡ false
      → sent_for id (request_for parse write mode new x o ++ es) ≡ sent_for id es
  tag_request-other x id none es h = refl
  tag_request-other x id (some d) es h =
      request_with-other x id (Option.map (retag mode new) (tags_of parse write d.tags)) es h

  tag_request-found :
      (id : ℕ) (row : TagRow) (old : List Text) (es : List BulkEffect)
      → tags_of parse write row.tags ≡ some old
      → sent_for id (request_for parse write mode new id (some row) ++ es)
        ≡ some (write (retag mode new old))
  tag_request-found id row old es tags =
      ap (λ o. sent_for id (request_with parse write id (Option.map (retag mode new) o) ++ es)) tags
      ∙ rw (==-self id) refl

  -- The request for a selected id, whatever comes after the requests.
  sent_for-requests :
      (row : TagRow) (old : List Text) (id : ℕ) (ids : List ℕ) (es : List BulkEffect)
      → find? (λ d. d.id == id) rows ≡ some row
      → tags_of parse write row.tags ≡ some old
      → has id ids ≡ true
      → sent_for id (tag_requests parse write mode new rows ids ++ es)
        ≡ some (write (retag mode new old))
  unfolding tag_requests tag_request
  sent_for-requests row old id [] es found tags h = ground arith
  sent_for-requests row old id (x ∷ xs) es found tags h =
      ap (sent_for id) (append_assoc (tag_request parse write mode new rows x) _ es)
      ∙ elim (Bool-cases (x == id)) [
        | inl e ↦
            ap (λ y. sent_for id (tag_request parse write mode new rows y ++ rest))
              ((==_iff x id).0 e)
            ∙ ap (λ o. sent_for id (request_for parse write mode new id o ++ rest)) found
            ∙ tag_request-found id row old rest tags
        | inr e ↦
            tag_request-other x id (find? (λ d. d.id == x) rows) rest e
            ∙ sent_for-requests row old id xs es found tags (ground arith)
      ]
    where
      rest : List BulkEffect
      rest = tag_requests parse write mode new rows xs ++ es

  toasts-request_with :
      (x : ℕ) (o : Option (List Text)) (es : List BulkEffect)
      → updated_toasts (request_with parse write x o ++ es) ≡ updated_toasts es
  toasts-request_with x none es = refl
  toasts-request_with x (some ts) es = refl

  toasts-request_for :
      (x : ℕ) (o : Option TagRow) (es : List BulkEffect)
      → updated_toasts (request_for parse write mode new x o ++ es) ≡ updated_toasts es
  toasts-request_for x none es = refl
  toasts-request_for x (some d) es =
      toasts-request_with x (Option.map (retag mode new) (tags_of parse write d.tags)) es

  toasts-requests :
      (ids : List ℕ) (es : List BulkEffect)
      → updated_toasts (tag_requests parse write mode new rows ids ++ es) ≡ updated_toasts es
  unfolding tag_requests tag_request
  toasts-requests [] es = refl
  toasts-requests (x ∷ xs) es =
      ap updated_toasts (append_assoc (tag_request parse write mode new rows x) _ es)
      ∙ toasts-request_for x (find? (λ d. d.id == x) rows) _
      ∙ toasts-requests xs es

-- JSON reads what it writes. A submission that names a tag, or that removes, sends for each selected
-- row whose tags are JSON a list of tags in which each tag is as the mode says: exactly the tags
-- that are named, those and the ones before, or the ones before without those. The toast counts all
-- selected rows.
pub submit_bulk_tags_lem :
    (parse : Text → Option (List Text)) (write : List Text → Text) (mode : String) (raw t : Text)
    (rows : List TagRow) (ids : List ℕ) (row : TagRow) (old : List Text) (id : ℕ)
    → ((ts : List Text) → parse (write ts) ≡ some ts)
    → (no_tags (parse_tags raw) && not (str_eq mode "remove")) ≡ false
    → find? (λ d. d.id == id) rows ≡ some row
    → tags_of parse write row.tags ≡ some old
    → has id ids ≡ true
    → (option_bind parse (sent_for id (submit_bulk_tags parse write mode raw rows ids))
        ≡ some (retag mode (parse_tags raw) old))
      × (has_text t (retag mode (parse_tags raw) old)
          ≡ tag_after mode (has_text t (parse_tags raw)) (has_text t old))
      × (updated_toasts (submit_bulk_tags parse write mode raw rows ids) ≡ length ids ∷ [])
unfolding submit_bulk_tags
submit_bulk_tags_lem parse write mode raw t rows ids row old id parse-write named found tags h = (
  rw named (
      ap (option_bind parse)
        (sent_for-requests parse write mode (parse_tags raw) rows row old id ids _ found tags h)
      ∙ parse-write (retag mode (parse_tags raw) old)),
  has_text-retag mode t (parse_tags raw) old,
  rw named (toasts-requests parse write mode (parse_tags raw) rows ids _),
)
