-- ===== src/Base/Trim.antt =====
-- `trim` leaves nothing to trim.
use Prim.Native.Nat.{ℕ}
use mathlib.Core.Path.{◌≡◌, refl, ap, ◌∙◌}
use mathlib.Core.Bool.{false}
use mathlib.Core.Logic.{inl, inr}
use mathlib.Core.List.{[], ◌∷◌, ◌++◌, reverse, reverse-append, reverse-reverse}
use domain_ssl_checker.Base.Tests.{Bool-cases}
use domain_ssl_checker.Base.Texts.{Text, is_space, trim_start, trim}

trim_start-trim_start : (s : Text) → trim_start (trim_start s) ≡ trim_start s
trim_start-trim_start [] = refl
trim_start-trim_start (c ∷ s) = elim (Bool-cases (is_space c)) [
  | inl space ↦ rw space (trim_start-trim_start s)
  | inr other ↦ rw (other, other) refl
]

-- A last character that is no space stays.
trim_start-last :
    (r : Text) (c : ℕ) → is_space c ≡ false → trim_start (r ++ c ∷ []) ≡ trim_start r ++ c ∷ []
trim_start-last [] c h = rw h refl
trim_start-last (x ∷ r) c h = elim (Bool-cases (is_space x)) [
  | inl space ↦ rw space (trim_start-last r c h)
  | inr other ↦ rw other refl
]

-- A text that starts with no space still does without the spaces at its end.
kept_start :
    (c : ℕ) (s : Text)
    → is_space c ≡ false
    → reverse (trim_start (reverse (c ∷ s))) ≡ c ∷ reverse (trim_start (reverse s))
kept_start c s h =
    ap (λ r. reverse (trim_start r)) (reverse-append (c ∷ []) s)
    ∙ ap reverse (trim_start-last (reverse s) c h)
    ∙ reverse-append (trim_start (reverse s)) (c ∷ [])

trim_start-trim : (s : Text) → trim_start (trim s) ≡ trim s
trim_start-trim [] = refl
trim_start-trim (c ∷ s) = elim (Bool-cases (is_space c)) [
  | inl space ↦ rw space (trim_start-trim s)
  | inr other ↦ rw (other, kept_start c s other, other) refl
]

pub trim-trim : (s : Text) → trim (trim s) ≡ trim s
trim-trim s =
    let inner = trim_start (reverse (trim_start s)) in
    ap (λ t. reverse (trim_start (reverse t))) (trim_start-trim s)
    ∙ ap (λ t. reverse (trim_start t)) (reverse-reverse inner)
    ∙ ap reverse (trim_start-trim_start (reverse (trim_start s)))
