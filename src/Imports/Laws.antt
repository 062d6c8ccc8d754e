-- ===== src/Imports/Laws.antt =====
-- The lines that an import reads.
use domain_ssl_checker.Base.{
  filter, Text, ℕ, List, Bool, any, all, not, ◌==◌, ◌≡◌, ◌&&◌, ◌∷◌, true, text_eq, split, join,
  trim, [], map, refl, ap, ◌∙◌, text_eq_iff, append_assoc, false_of_not, and_true, split-last,
  split-append,
}
use domain_ssl_checker.Imports.{import_lines, is_entry}

-- A line that the import takes as it is: without a line end, trimmed, and no comment.
abbrev pub is_plain : Text → Bool
is_plain u = not (any (λ c. c == 10) u) && text_eq (trim u) u && is_entry u

split-join :
    (c : ℕ) (part : Text) (parts : List Text)
    → all (λ u. not (any (λ x. x == c) u)) (part ∷ parts) ≡ true
    → split c (join (c ∷ []) (part ∷ parts)) ≡ part ∷ parts
split-join c part [] h = split-last c part (false_of_not _ (and_true _ _ h).0)
split-join c part (next ∷ parts) h =
    let (e, rest) = and_true (not (any (λ x. x == c) part)) _ h in
    ap (split c) (append_assoc part (c ∷ []) (join (c ∷ []) (next ∷ parts)))
    ∙ split-append c part (join (c ∷ []) (next ∷ parts)) (false_of_not _ e)
    ∙ ap (part ∷◌) (split-join c next parts rest)

-- A plain line: without a line end, kept by `trim`, and an entry.
plain_parts :
    (u : Text)
    → is_plain u ≡ true
    → (not (any (λ c. c == 10) u) ≡ true) × (trim u ≡ u) × (is_entry u ≡ true)
plain_parts u h =
    let (t, n) = and_true (not (any (λ c. c == 10) u) && text_eq (trim u) u) (is_entry u) h in
    let (l, e) = and_true (not (any (λ c. c == 10) u)) (text_eq (trim u) u) t in
    (l, text_eq_iff (trim u) u e, n)

keep_plain : (us : List Text) → all is_plain us ≡ true → filter is_entry (map trim us) ≡ us
keep_plain [] h = refl
keep_plain (u ∷ us) h =
    let (p, rest) = and_true (is_plain u) _ h in
    let (l, t, e) = plain_parts u p in rw (t, e) (ap (u ∷◌) (keep_plain us rest))

no_line_ends :
    (us : List Text) → all is_plain us ≡ true → all (λ u. not (any (λ c. c == 10) u)) us ≡ true
no_line_ends [] h = refl
no_line_ends (u ∷ us) h =
    let (p, rest) = and_true (is_plain u) _ h in rw ((plain_parts u p).0, no_line_ends us rest) refl

-- Addresses that are trimmed, start with no `#` and hold no line end, written one per line, are the
-- entries that the import reads, in their order.
pub import_lines-join :
    (us : List Text) → all is_plain us ≡ true → import_lines (join (10 ∷ []) us) ≡ us
unfolding import_lines
import_lines-join [] h = refl
import_lines-join (u ∷ us) h =
    ap (λ ls. filter is_entry (map trim ls)) (split-join 10 u us (no_line_ends (u ∷ us) h))
    ∙ keep_plain (u ∷ us) h
