-- ===== src/Bulk/Tests.antt =====
-- The theorem on the bulk edit of the tags, with tags written as their code units plus one, each
-- ended by a zero.
use domain_ssl_checker.Base.{
  suc, zero, List, Text, ◌∷◌, [], Option, map, ◌≡◌, codes, some, ◌++◌, split_cons, ◌∙◌, none, ap,
  refl, true,
}
use domain_ssl_checker.Bulk.{TagRow, parse_tags, submit_bulk_tags, retag, has_text}
use domain_ssl_checker.Bulk.Laws.{option_bind, sent_for, updated_toasts, submit_bulk_tags_lem}

abbrev test_write : List Text → Text
test_write [] = []
test_write (t ∷ ts) = map suc t ++ 0 ∷ test_write ts

abbrev test_read : Text → List Text
test_read [] = []
test_read (zero ∷ cs) = [] ∷ test_read cs
test_read (suc c ∷ cs) = split_cons c (test_read cs)

abbrev test_parse : Text → Option (List Text)
test_parse t = some (test_read t)

read_one : (t cs : Text) → test_read (map suc t ++ 0 ∷ cs) ≡ t ∷ test_read cs
read_one [] cs = refl
read_one (c ∷ t) cs = ap (split_cons c) (read_one t cs)

read-write : (ts : List Text) → test_read (test_write ts) ≡ ts
read-write [] = refl
read-write (t ∷ ts) = read_one t (test_write ts) ∙ ap (t ∷◌) (read-write ts)

abbrev old_tags : List Text
old_tags = codes "a" ∷ codes "b" ∷ []

abbrev tagged_row : TagRow
tagged_row = record { id = 4; tags = some (test_write old_tags); notes = none }

submit_bulk_tags_example :
    (option_bind test_parse (
        sent_for 4
          (submit_bulk_tags test_parse test_write "add" (codes " b, c") (tagged_row ∷ []) (4 ∷ [])))
      ≡ some (retag "add" (parse_tags (codes " b, c")) old_tags))
    × (has_text (codes "c") (retag "add" (parse_tags (codes " b, c")) old_tags) ≡ true)
    × (updated_toasts
          (submit_bulk_tags test_parse test_write "add" (codes " b, c") (tagged_row ∷ []) (4 ∷ []))
        ≡ 1 ∷ [])
unfolding parse_tags
submit_bulk_tags_example =
    submit_bulk_tags_lem test_parse test_write "add" (codes " b, c") (codes "c") (tagged_row ∷ [])
      (4 ∷ []) tagged_row old_tags 4 (λ ts. ap some (read-write ts)) refl refl refl refl
