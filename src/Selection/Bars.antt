-- ===== src/Selection/Bars.antt =====
-- The select-all boxes and the toolbars of the web apps and of the ports.
use domain_ssl_checker.Selection.{has, put_all}
use domain_ssl_checker.Selection.Sets.{has-put_all}
use domain_ssl_checker.Base.{
  Bool, List, ℕ, ltb, not, all, true, length, ◌≡◌, ◌∷◌, ◌==◌, and_true, ==-self, ◌&&◌, [], arith,
  refl,
}

-- The box of all web apps, over the ids of the boxes in the page, and that of all ports, over the
-- ids of `_portCache`.
unfoldable pub select_all_in : Bool → List ℕ → List ℕ → List ℕ
select_all_in checked ids selected = put_all checked ids selected

-- A toolbar: whether it is shown, its number, and whether its select-all box is checked.
pub record BulkBar : Type 0 where
  pub shown : Bool
  pub count : ℕ
  pub all_checked : Bool

abbrev pub all_boxes : Bool → List ℕ → List ℕ → Bool
all_boxes old selected [] = old
all_boxes old selected (id ∷ ids) = all (λ x. has x selected) (id ∷ ids)

-- `updateWebappBulkToolbar`: the boxes in the page are those of `ids`, each checked as the set has
-- it; without a box the select-all box keeps its state.
unfoldable pub webapp_toolbar : List ℕ → List ℕ → Bool → BulkBar
webapp_toolbar selected ids old = record {
  shown = ltb 0 (length selected);
  count = length selected;
  all_checked = all_boxes old selected ids;
}

-- `updatePortBulkBar`
unfoldable pub port_toolbar : List ℕ → List ℕ → BulkBar
port_toolbar selected ids = record {
  shown = not (length selected == 0);
  count = length selected;
  all_checked = ltb 0 (length ids) && length selected == length ids;
}

all_selected :
    (xs ids s : List ℕ)
    → all (λ x. has x ids) xs ≡ true
    → all (λ x. has x (put_all true ids s)) xs ≡ true
all_selected [] ids s h = refl
all_selected (x ∷ xs) ids s h =
    let (own, rest) = and_true (has x ids) _ h in
    rw (has-put_all x true ids s, own) (all_selected xs ids s rest)

more_ids :
    (y : ℕ) (ids xs : List ℕ)
    → all (λ x. has x xs) ids ≡ true
    → all (λ x. has x (y ∷ xs)) ids ≡ true
more_ids y [] xs h = refl
more_ids y (x ∷ ids) xs h =
    let (own, rest) = and_true (has x xs) _ h in rw own (ground (arith, more_ids y ids xs rest))

own_ids : (ids : List ℕ) → all (λ x. has x ids) ids ≡ true
own_ids [] = refl
own_ids (x ∷ ids) = rw (==-self x) (more_ids x ids ids (own_ids ids))

-- After the box of all web apps was checked, on a page with a row, the toolbar shows it checked.
webapp_toolbar-select_all_in :
    (id : ℕ) (ids selected : List ℕ) (old : Bool)
    → (webapp_toolbar (select_all_in true (id ∷ ids) selected) (id ∷ ids) old).all_checked ≡ true
unfolding webapp_toolbar select_all_in
webapp_toolbar-select_all_in id ids selected old =
    all_selected (id ∷ ids) (id ∷ ids) selected (own_ids (id ∷ ids))
