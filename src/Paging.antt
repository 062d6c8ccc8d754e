-- ===== src/Paging.antt =====
-- The page arithmetic that ssl_domain_checker/static/app.js repeats for its paged lists:
-- `Math.max(1, Math.ceil(n / size))` and `xs.slice((page - 1) * size, (page - 1) * size + size)`.
-- A page size is positive: each is one option of a `<select>`, a constant, or a default behind `||`.
pub mod Cover
use domain_ssl_checker.Base.{
  ℕ, zero, suc, ◌+◌, ◌-◌, ◌*◌, ◌/◌, ◌≤◌, ◌<◌, min, max, ◌≡◌, List, [], length, take, drop, arith,
}

-- `Math.ceil(n / size)`
unfoldable pub div_ceil : ℕ → ℕ → ℕ
div_ceil n size = (n + (size - 1)) / size

-- `Math.max(1, Math.ceil(n / size))`
unfoldable pub page_count : ℕ → ℕ → ℕ
unfolding div_ceil
page_count n size = max 1 (div_ceil n size)

-- The slice of page `page`. At page 0 the source's slice runs from -size to 0, and is empty.
unfoldable pub page_slice {ℓ} : {A : Type ℓ} → ℕ → ℕ → List A → List A
page_slice zero size xs = []
page_slice (suc k) size xs = take size (drop (k * size) xs)

-- The number of pages holds all items, and one page fewer does not.
pub div_ceil_upper : (n size : ℕ) → 0 < size → n ≤ div_ceil n size * size
unfolding div_ceil
div_ceil_upper n size h = grind arith

pub div_ceil_lower : (n size : ℕ) → 0 < size → div_ceil n size * size < n + size
unfolding div_ceil
div_ceil_lower n size h = grind arith
