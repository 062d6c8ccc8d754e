-- ===== src/Sorting.antt =====
-- `Array.prototype.sort` with a comparator: a stable sort (ECMA-262), here by insertion. The sign
-- that the comparator returns is an `Ordering`.
pub mod Laws
use Prim.Native.Nat.{Ordering}
use domain_ssl_checker.Base.{List, [], ◌∷◌, ◌≡◌, ◌≢◌, Bool, if◌then◌else◌, false, true}

abbrev pub is_gt : Ordering → Bool
is_gt Ordering.gt = true
is_gt _ = false

abbrev pub is_eq : Ordering → Bool
is_eq Ordering.eq = true
is_eq _ = false

unfoldable pub insert_by {ℓ} : {A : Type ℓ} → (A → A → Ordering) → A → List A → List A
insert_by cmp x [] = x ∷ []
insert_by cmp x (y ∷ ys) = if is_gt (cmp x y) then y ∷ insert_by cmp x ys else x ∷ y ∷ ys

unfoldable pub sort_by {ℓ} : {A : Type ℓ} → (A → A → Ordering) → List A → List A
unfolding insert_by
sort_by cmp [] = []
sort_by cmp (x ∷ xs) = insert_by cmp x (sort_by cmp xs)

abbrev pub flip : Ordering → Ordering
flip Ordering.lt = Ordering.gt
flip Ordering.eq = Ordering.eq
flip Ordering.gt = Ordering.lt

-- What `sort` asks of a comparator, and ECMA-402 of `localeCompare`: it is consistent.
pub record IsComparison {ℓ} {A : Type ℓ} (cmp : A → A → Ordering) : Type ℓ where
  pub flips : (a b : A) → cmp b a ≡ flip (cmp a b)
  pub trans :
      (a b c : A) → is_gt (cmp a b) ≡ false → is_gt (cmp b c) ≡ false → is_gt (cmp a c) ≡ false
