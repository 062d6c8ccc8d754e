-- ===== src/Selection/Sets.antt =====
-- Sets as lists without repetition.
use domain_ssl_checker.Selection.{has, add, delete, put, put_all}
use domain_ssl_checker.Base.{
  filter, List, ℕ, Bool, ◌∷◌, ◌≡◌, Bool-cases, false, ◌==◌, not, if◌then◌else◌, inl, [], ◌||◌, ◌&&◌,
  arith, ◌∙◌, ◌++◌, inr, true, refl, any-append, ap,
}

abbrev pub NoRepeats : List ℕ → Type 0
NoRepeats [] = Unit
NoRepeats (x ∷ s) = (has x s ≡ false) × NoRepeats s

has_of_eq : (x y : ℕ) (s : List ℕ) → has x s ≡ true → x ≡ y → has y s ≡ true
has_of_eq x y s h e = rw (← e) h

pub has-add : (y x : ℕ) (s : List ℕ) → has y (add x s) ≡ (x == y || has y s)
unfolding add
has-add y x s = elim (Bool-cases (has x s)) [
  | inl old ↦ rw old (ground (arith, has_of_eq x y s old))
  | inr new ↦ rw (new, any-append) (ground arith)
]

pub has-delete : (y x : ℕ) (s : List ℕ) → has y (delete x s) ≡ (not (x == y) && has y s)
unfolding delete
has-delete y x [] = ground arith
has-delete y x (z ∷ s) = ground (arith, has-delete y x s)

-- After the change, `x` is in the set exactly if it was checked, and the others are as before.
pub has-put :
    (y : ℕ) (checked : Bool) (x : ℕ) (s : List ℕ)
    → has y (put checked x s) ≡ (if x == y then checked else has y s)
unfolding put
has-put y true x s = rw has-add (ground arith)
has-put y false x s = rw has-delete (ground arith)

pub has-put_all :
    (y : ℕ) (checked : Bool) (xs s : List ℕ)
    → has y (put_all checked xs s) ≡ (if has y xs then checked else has y s)
unfolding put_all
has-put_all y checked [] s = refl
has-put_all y checked (x ∷ xs) s =
    has-put_all y checked xs (put checked x s) ∙ rw has-put (ground arith)

pub NoRepeats-concat :
    (x : ℕ) (s : List ℕ) → has x s ≡ false → NoRepeats s → NoRepeats (s ++ x ∷ [])
NoRepeats-concat x [] h n = (refl, tt)
NoRepeats-concat x (y ∷ s) h (m, n) =
    (rw any-append (ground arith), NoRepeats-concat x s (ground arith) n)

NoRepeats-add : (x : ℕ) (s : List ℕ) → NoRepeats s → NoRepeats (add x s)
unfolding add
NoRepeats-add x s n = elim (Bool-cases (has x s)) [
  | inl old ↦ rw old n
  | inr new ↦ rw new (NoRepeats-concat x s new n)
]

pub NoRepeats-delete : (x : ℕ) (s : List ℕ) → NoRepeats s → NoRepeats (delete x s)
unfolding delete
NoRepeats-delete x [] n = tt
NoRepeats-delete x (y ∷ s) (m, n) = elim (Bool-cases (y == x)) [
  | inl e ↦ rw e (NoRepeats-delete x s n)
  | inr e ↦ rw e (ground (arith, has-delete y x s), NoRepeats-delete x s n)
]

pub NoRepeats-put_all :
    (checked : Bool) (xs s : List ℕ) → NoRepeats s → NoRepeats (put_all checked xs s)
unfolding put_all put
NoRepeats-put_all checked [] s n = n
NoRepeats-put_all true (x ∷ xs) s n = NoRepeats-put_all true xs (add x s) (NoRepeats-add x s n)
NoRepeats-put_all false (x ∷ xs) s n =
    NoRepeats-put_all false xs (delete x s) (NoRepeats-delete x s n)

pub same_answer : (q : ℕ → Bool) (x y : ℕ) → x ≡ y → q x ≡ q y
same_answer q x y e = ap q e

pub has-filter :
    (q : ℕ → Bool) (id : ℕ) (ids : List ℕ) → has id (filter q ids) ≡ (has id ids && q id)
has-filter q id [] = ground arith
has-filter q id (x ∷ ids) = ground (arith, has-filter q id ids, same_answer q x id)
