-- ===== src/Selection/Tests.antt =====
-- The theorems on selections at a list of four rows.
use domain_ssl_checker.Base.{List, ℕ, ◌∷◌, [], some}
use domain_ssl_checker.Selection.{Selection}

abbrev four : List ℕ
four = 11 ∷ 12 ∷ 13 ∷ 14 ∷ []

abbrev anchored : Selection
anchored = record { selected = 13 ∷ []; last_checked = some 13 }
