-- ===== src/Forms/Numbers/Laws.antt =====
-- A number that is written into an input is read back from it.
use domain_ssl_checker.Digits.{show, show_fuel}
use domain_ssl_checker.Forms.Numbers.{parse_int, digits_of, value_from, int_or, is_blank, num_or}
use domain_ssl_checker.Base.{
  Text, ℕ, ◌∷◌, suc, ◌<◌, ◌≡◌, ◌≢◌, ◌≤◌, Bool-cases, arith, [], some, ltb, refl, pos, inl, inr, ap,
  ◌/◌, ◌+◌, ◌%◌, zero, ◌∙◌, Option, false, none,
}

IsDigits : Text → Type 0
IsDigits [] = Unit
IsDigits (c ∷ cs) = (48 ≤ c) × (c ≤ 57) × IsDigits cs

show_fuel-IsDigits : (f n : ℕ) (tail : Text) → IsDigits tail → IsDigits (show_fuel f n tail)
unfolding show_fuel IsDigits
show_fuel-IsDigits zero n tail h = h
show_fuel-IsDigits (suc f) n tail h = elim (Bool-cases (ltb n 10)) [
  | inl small ↦ rw small (omega arith, ground arith, h)
  | inr big ↦
      rw big (show_fuel-IsDigits f (n / 10) ((48 + n % 10) ∷ tail) (omega arith, omega arith, h))
]

value-show_fuel :
    (f n : ℕ) (tail : Text) → n < f → value_from 0 (show_fuel f n tail) ≡ value_from n tail
unfolding show_fuel
value-show_fuel zero n tail h = elim h [ ]
value-show_fuel (suc f) n tail h = elim (Bool-cases (ltb n 10)) [
  | inl small ↦ rw small (ap (λ (k : ℕ). value_from k tail) (omega arith))
  | inr big ↦ rw big (
      value-show_fuel f (n / 10) ((48 + n % 10) ∷ tail) (ground arith)
      ∙ ap (λ (k : ℕ). value_from k tail) (omega arith))
]

digits_of-IsDigits : (s : Text) → IsDigits s → digits_of s ≡ s
unfolding IsDigits
digits_of-IsDigits [] h = refl
digits_of-IsDigits (c ∷ cs) h = ground (arith, digits_of-IsDigits cs h.2)

parse_int-IsDigits :
    (s : Text) (n : ℕ) → IsDigits s → value_from 0 s ≡ n → s ≢ [] → parse_int s ≡ some (pos n)
unfolding IsDigits parse_int
parse_int-IsDigits [] n h e ne = absurd (ne refl)
parse_int-IsDigits (c ∷ cs) n h e ne = ground (arith, digits_of-IsDigits cs h.2)

show_fuel-ne-nil : (f n : ℕ) (tail : Text) → tail ≢ [] → show_fuel f n tail ≢ []
unfolding show_fuel
show_fuel-ne-nil zero n tail h = h
show_fuel-ne-nil (suc f) n tail h = elim (Bool-cases (ltb n 10)) [
  | inl small ↦ rw small (λ e. cc)
  | inr big ↦ rw big (show_fuel-ne-nil f (n / 10) ((48 + n % 10) ∷ tail) (λ e. cc))
]

show-ne-nil : (n : ℕ) → show n ≢ []
unfolding show show_fuel
show-ne-nil n = elim (Bool-cases (ltb n 10)) [
  | inl small ↦ rw small (λ e. cc)
  | inr big ↦ rw big (show_fuel-ne-nil n (n / 10) ((48 + n % 10) ∷ []) (λ e. cc))
]

-- `parseInt(String(n))`
pub parse_int-show : (n : ℕ) → parse_int (show n) ≡ some (pos n)
unfolding show IsDigits
parse_int-show n =
    parse_int-IsDigits (show n) n (show_fuel-IsDigits (suc n) n [] tt)
      (value-show_fuel (suc n) n [] (omega arith)) (show-ne-nil n)

int_or-pos : (n d : ℕ) → 0 < n → int_or (some (pos n)) d ≡ pos n
int_or-pos zero d h = absurd (omega arith)
int_or-pos (suc n) d h = refl

int_or-num : (n d : ℕ) → int_or (some (pos n)) d ≡ pos (num_or (some n) d)
int_or-num zero d = refl
int_or-num (suc n) d = ground arith

pub num_or-pos : (o : Option ℕ) (d : ℕ) → 0 < d → 0 < num_or o d
num_or-pos none d h = h
num_or-pos (some n) d h = ground arith

not_blank : (s : Text) → s ≢ [] → is_blank s ≡ false
not_blank [] h = absurd (h refl)
not_blank (c ∷ cs) h = refl

-- A number that is shown with its fallback is read back with it.
pub int_or-num_or :
    (o : Option ℕ) (d : ℕ) → 0 < d → int_or (parse_int (show (num_or o d))) d ≡ pos (num_or o d)
int_or-num_or o d h =
    rw (parse_int-show (num_or o d)) (int_or-pos (num_or o d) d (num_or-pos o d h))

pub is_blank-show : (n : ℕ) → is_blank (show n) ≡ false
is_blank-show n = not_blank (show n) (show-ne-nil n)

pub int_or-show : (n d : ℕ) → int_or (parse_int (show n)) d ≡ pos (num_or (some n) d)
int_or-show n d = rw (parse_int-show n) (int_or-num n d)
