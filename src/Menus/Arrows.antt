-- ===== src/Menus/Arrows.antt =====
-- The way of the arrow keys through the buttons of a menu.
use native.Mathlib.Nat.{mod-eq_of_lt, mod-eq-sub-mod}
use domain_ssl_checker.Menus.{arrow_down, arrow_up}
use domain_ssl_checker.Base.{
  ℕ, ◌+◌, arith, if◌then◌else◌, ◌≡◌, ◌==◌, ◌<◌, some, ◌%◌, ◌-◌, ◌∙◌, suc, ap, zero,
}

wrap_down : (n i : ℕ) → i < n → (i + 1) % n ≡ (if i + 1 == n then 0 else i + 1)
wrap_down n i h = grind arith

wrap_up : (n i : ℕ) → i < n → (i + n - 1) % n ≡ (if i == 0 then n - 1 else i - 1)
wrap_up n zero h = mod-eq_of_lt (omega arith) ∙ ground arith
wrap_up n (suc i) h =
    let less : suc i + n - 1 - n ≡ i = omega arith in
    mod-eq-sub-mod (omega arith)
    ∙ ap (λ (k : ℕ). k % n) less
    ∙ mod-eq_of_lt {n = i} (omega arith)
    ∙ ground arith

-- In a menu of some buttons, both arrows lead to a button, and from a button each takes back the other.
pub arrows_lem :
    (n i : ℕ)
    → i < n
    → (arrow_down n (some i) < n)
      × (arrow_up n (some i) < n)
      × (arrow_up n (some (arrow_down n (some i))) ≡ i)
      × (arrow_down n (some (arrow_up n (some i))) ≡ i)
unfolding arrow_down arrow_up
arrows_lem n i h = ground (
  arith,
  wrap_down n i,
  wrap_up n i,
  wrap_up n (if i + 1 == n then 0 else i + 1),
  wrap_down n (if i == 0 then n - 1 else i - 1),
)
