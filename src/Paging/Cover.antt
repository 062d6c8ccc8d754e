-- ===== src/Paging/Cover.antt =====
-- The pages of a list, one after the other, are the list.
use domain_ssl_checker.Base.{
  ℕ, zero, suc, ◌+◌, ◌-◌, ◌*◌, ◌<◌, min, ◌≡◌, ap, List, [], ◌++◌, length, take, arith, take-add,
  take-all, length-take, length-drop, ◌≤◌,
}
use domain_ssl_checker.Paging.{page_count, page_slice, div_ceil_upper}

module _ {ℓ} {A : Type ℓ} where
  -- Pages 1 to `n`, in order.
  abbrev pub pages_upto : ℕ → ℕ → List A → List A
  pages_upto zero size xs = []
  pages_upto (suc n) size xs = pages_upto n size xs ++ page_slice (suc n) size xs

  pages_upto-eq-take : (n size : ℕ) (xs : List A) → pages_upto n size xs ≡ take (n * size) xs
  unfolding page_slice
  pages_upto-eq-take zero size xs = let e : zero * size ≡ zero = omega arith in rw e
  pages_upto-eq-take (suc n) size xs =
      let e : suc n * size ≡ n * size + size = omega arith in
      rw (e, take-add, pages_upto-eq-take n size xs)

  pub pages_cover :
      (size : ℕ) (xs : List A) → 0 < size → pages_upto (page_count (length xs) size) size xs ≡ xs
  unfolding page_count
  pages_cover size xs h =
      rw pages_upto-eq-take (take-all (page_count (length xs) size * size) xs enough)
    where
      enough : length xs ≤ page_count (length xs) size * size
      enough = grind (arith, div_ceil_upper (length xs) size h)

  pub length-page_slice :
      (page size : ℕ) (xs : List A)
      → 0 < page
      → length (page_slice page size xs) ≡ min size (length xs - (page - 1) * size)
  unfolding page_slice
  length-page_slice zero size xs h = absurd (omega arith)
  length-page_slice (suc k) size xs h =
      rw (length-take, length-drop) (ap (λ i. min size (length xs - i * size)) (omega arith))
