-- ===== src/Selection.antt =====
-- The selections of rows: the Sets `selectedDomains`, `selectedSsl`, `_selectedWebapps` and
-- `_selectedPorts`, and the handlers of their checkboxes. A Set is the list of its elements in the
-- order of insertion, which is the order that `[...set]` gives.
pub mod Sets
pub mod Range
pub mod Toggle
pub mod Toolbar
pub mod Bars
mod Tests
use domain_ssl_checker.Platform.{Platform}
use domain_ssl_checker.Base.{
  ℕ, Bool, Option, List, any, if◌then◌else◌, filter, ◌∷◌, take, [], some, true, ◌==◌, ◌++◌, not,
  suc, ltb, none, find_idx?, ◌-◌, drop,
}

-- `set.has(x)`
abbrev pub has : ℕ → List ℕ → Bool
has x s = any (λ y. y == x) s

-- `set.add(x)`
unfoldable pub add : ℕ → List ℕ → List ℕ
add x s = if has x s then s else s ++ x ∷ []

-- `set.delete(x)`
unfoldable pub delete : ℕ → List ℕ → List ℕ
delete x s = filter (λ y. not (y == x)) s

-- `if (checked) set.add(x); else set.delete(x);`
unfoldable pub put : Bool → ℕ → List ℕ → List ℕ
put checked x s = if checked then add x s else delete x s

unfoldable pub put_all : Bool → List ℕ → List ℕ → List ℕ
put_all checked [] s = s
put_all checked (x ∷ xs) s = put_all checked xs (put checked x s)

-- The elements at the indices from `start` to `end`, both included.
unfoldable pub between {ℓ} : {A : Type ℓ} → ℕ → ℕ → List A → List A
between start end xs = take (suc end - start) (drop start xs)

-- `[start, end] = a < b ? [a, b] : [b, a]`, then the elements of that range
unfoldable pub span {ℓ} : {A : Type ℓ} → ℕ → ℕ → List A → List A
span a b xs = if ltb a b then between a b xs else between b a xs

-- The ids that a shift-click reaches: none without shift, without a row clicked before, or where
-- one of the two rows is not in the list.
abbrev reach_at : Option ℕ → Option ℕ → List ℕ → List ℕ
reach_at (some a) (some b) ids = span a b ids
reach_at (some a) none ids = []
reach_at none j ids = []

abbrev reach_from : Option ℕ → ℕ → List ℕ → List ℕ
reach_from none id ids = []
reach_from (some last) id ids =
    reach_at (find_idx? (λ y. y == last) ids) (find_idx? (λ y. y == id) ids) ids

unfoldable pub reach : Bool → Option ℕ → ℕ → List ℕ → List ℕ
reach shift last id ids = if shift then reach_from last id ids else []

-- A selection with the row that was clicked last.
pub record Selection : Type 0 where
  pub selected : List ℕ
  pub last_checked : Option ℕ

-- The `change` handler of a row's checkbox in the domain lists and in the web apps: `ids` are the
-- ids of the cached list, in its order.
unfoldable pub toggle_row : List ℕ → Bool → Bool → ℕ → Selection → Selection
toggle_row ids checked shift id s = record {
  selected = put_all checked (reach shift s.last_checked id ids) (put checked id s.selected);
  last_checked = some id;
}

-- The handler of a row's checkbox in the port checks: the range is always added, where `on_page`
-- holds, that is where the page has a checkbox for the row.
unfoldable pub toggle_port : (ℕ → Bool) → List ℕ → Bool → Bool → ℕ → Selection → Selection
toggle_port on_page ids checked shift id s = record {
  selected =
      put_all true (filter on_page (reach shift s.last_checked id ids)) (put checked id s.selected);
  last_checked = if checked then some id else none;
}
