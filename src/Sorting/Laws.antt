-- ===== src/Sorting/Laws.antt =====
-- The sort gives a permutation in order, and keeps the order of elements that compare equal.
use Prim.Native.Nat.{Ordering, compare}
use mathlib.Core.List.{Perm}
use mathlib.Core.List.Perm
use domain_ssl_checker.Base.{
  List, [], ◌∷◌, All, Bool-cases, Bool, ◌≡◌, ap, arith, false, true, filter, ◌∙◌, inl, refl, inr,
  length, suc,
}
use domain_ssl_checker.Sorting.{insert_by, sort_by, flip, is_gt, IsComparison}

module _ {ℓ} {A : Type ℓ} where
  -- No element compares greater than a later one.
  abbrev pub IsSortedBy : (A → A → Ordering) → List A → Type 0
  IsSortedBy cmp [] = Unit
  IsSortedBy cmp (x ∷ xs) = All (λ y. is_gt (cmp x y) ≡ false) xs × IsSortedBy cmp xs

  All-map {κ ι} :
      {P : A → Type κ} {Q : A → Type ι} (xs : List A) → ((x : A) → P x → Q x) → All P xs → All Q xs
  All-map [] f h = tt
  All-map (x ∷ xs) f (p, h) = (f x p, All-map xs f h)

module _ {ℓ} {A : Type ℓ} (cmp : A → A → Ordering) where
  insert_by-perm : (x : A) (ys : List A) → Perm (insert_by cmp x ys) (x ∷ ys)
  unfolding insert_by
  insert_by-perm x [] = Perm.refl _
  insert_by-perm x (y ∷ ys) = elim (Bool-cases (is_gt (cmp x y))) [
    | inl e ↦ rw e (Perm.trans (Perm.cons y (insert_by-perm x ys)) (Perm.swap x y ys))
    | inr e ↦ rw e (Perm.refl _)
  ]

  pub sort_by-perm : (xs : List A) → Perm (sort_by cmp xs) xs
  unfolding sort_by
  sort_by-perm [] = Perm.refl _
  sort_by-perm (x ∷ xs) =
      Perm.trans (insert_by-perm x (sort_by cmp xs)) (Perm.cons x (sort_by-perm xs))

  -- Elements that `p` picks, of which no two compare greater, keep their order.
  insert_by-stable :
      (p : A → Bool)
      → ((x y : A) → p x ≡ true → p y ≡ true → is_gt (cmp x y) ≡ false)
      → (x : A) (ys : List A) → filter p (insert_by cmp x ys) ≡ filter p (x ∷ ys)
  unfolding insert_by
  insert_by-stable p h x [] = refl
  insert_by-stable p h x (y ∷ ys) = ground (arith, h x y, insert_by-stable p h x ys)

  pub sort_by-stable :
      (p : A → Bool)
      → ((x y : A) → p x ≡ true → p y ≡ true → is_gt (cmp x y) ≡ false)
      → (xs : List A) → filter p (sort_by cmp xs) ≡ filter p xs
  unfolding sort_by
  sort_by-stable p h [] = refl
  sort_by-stable p h (x ∷ xs) =
      insert_by-stable p h x (sort_by cmp xs) ∙ ground (arith, sort_by-stable p h xs)

  length-insert_by : (x : A) (ys : List A) → length (insert_by cmp x ys) ≡ suc (length ys)
  unfolding insert_by
  length-insert_by x [] = refl
  length-insert_by x (y ∷ ys) = ground (arith, length-insert_by x ys)

  pub length-sort_by : (xs : List A) → length (sort_by cmp xs) ≡ length xs
  unfolding sort_by
  length-sort_by [] = refl
  length-sort_by (x ∷ xs) = length-insert_by x (sort_by cmp xs) ∙ ap suc (length-sort_by xs)

  All-insert_by {κ} :
      (P : A → Type κ) (x : A) (ys : List A) → P x → All P ys → All P (insert_by cmp x ys)
  unfolding insert_by
  All-insert_by P x [] p h = (p, tt)
  All-insert_by P x (y ∷ ys) p (q, h) = elim (Bool-cases (is_gt (cmp x y))) [
    | inl e ↦ rw e (q, All-insert_by P x ys p h)
    | inr e ↦ rw e (p, (q, h))
  ]

  module _ (c : IsComparison cmp) where
    le_of_gt : (x y : A) → is_gt (cmp x y) ≡ true → is_gt (cmp y x) ≡ false
    le_of_gt x y e = rw (c.flips x y) (is_gt-flip (cmp x y) e)
      where
        is_gt-flip : (o : Ordering) → is_gt o ≡ true → is_gt (flip o) ≡ false
        is_gt-flip Ordering.lt h = cc
        is_gt-flip Ordering.eq h = refl
        is_gt-flip Ordering.gt h = refl

    insert_by-IsSortedBy :
        (x : A) (ys : List A) → IsSortedBy cmp ys → IsSortedBy cmp (insert_by cmp x ys)
    unfolding insert_by
    insert_by-IsSortedBy x [] s = (tt, tt)
    insert_by-IsSortedBy x (y ∷ ys) (h, s) = elim (Bool-cases (is_gt (cmp x y))) [
      | inl e ↦ rw e (All-insert_by _ x ys (le_of_gt x y e) h, insert_by-IsSortedBy x ys s)
      | inr e ↦ rw e ((e, All-map ys (λ z. c.trans x y z e) h), (h, s))
    ]

    pub sort_by-IsSortedBy : (xs : List A) → IsSortedBy cmp (sort_by cmp xs)
    unfolding sort_by
    sort_by-IsSortedBy [] = tt
    sort_by-IsSortedBy (x ∷ xs) = insert_by-IsSortedBy x (sort_by cmp xs) (sort_by-IsSortedBy xs)

-- Comparisons from others: by a key, in reverse, and the constant one.
pub IsComparison-on {ℓ κ} :
    {A : Type ℓ} {B : Type κ} {cmp : B → B → Ordering}
    → IsComparison cmp
    → (key : A → B) → IsComparison (λ a b. cmp (key a) (key b))
IsComparison-on c key = record {
  flips = λ a b. c.flips (key a) (key b);
  trans = λ x y z. c.trans (key x) (key y) (key z);
}

pub IsComparison-flip {ℓ} :
    {A : Type ℓ} {cmp : A → A → Ordering} → IsComparison cmp → IsComparison (λ a b. flip (cmp a b))
IsComparison-flip c = record {
  flips = λ a b. ap flip (c.flips a b);
  trans = λ x y z p q. rw (← c.flips x z) (c.trans z y x (rw (c.flips y z) q) (rw (c.flips x y) p));
}

pub IsComparison-compare : IsComparison compare
IsComparison-compare = record { flips = λ a b. ground arith; trans = λ a b c p q. ground arith }

pub IsComparison-eq {ℓ} : {A : Type ℓ} → IsComparison {A = A} (λ a b. Ordering.eq)
IsComparison-eq = record { flips = λ a b. refl; trans = λ a b c p q. refl }
