-- ===== src/Digits/Laws.antt =====
-- Reading a number that was shown gives the number, whatever follows it.
use native.Mathlib.Decide.{dec_lt}
use domain_ssl_checker.Digits.{show_fuel, show, read_from}
use domain_ssl_checker.Base.{
  ℕ, Text, ◌<◌, ◌++◌, ◌+◌, ◌≡◌, ◌∷◌, arith, suc, ◌*◌, zero, ◌/◌, ◌%◌, refl,
}

read_digit :
    (unit : ℕ → ℕ) (total acc d : ℕ) (tail : Text)
    → d < 10
    → read_from unit total acc ((48 + d) ∷ tail) ≡ read_from unit total (acc * 10 + d) tail
unfolding read_from
read_digit unit total acc d tail h = ground arith

zero_digit : (n : ℕ) → 0 * 10 + n ≡ n
zero_digit n = omega arith

read_show_fuel :
    (unit : ℕ → ℕ) (f total n : ℕ) (tail : Text)
    → n < f
    → read_from unit total 0 (show_fuel f n tail) ≡ read_from unit total n tail
unfolding show_fuel
read_show_fuel unit zero total n tail h = absurd (omega arith)
read_show_fuel unit (suc f) total n tail h = elim (dec_lt n 10) [
  | yes small ↦ ground (arith, read_digit unit total 0 n tail small, zero_digit n)
  | no big ↦ ground (
    arith,
    read_show_fuel unit f total (n / 10) ((48 + n % 10) ∷ tail),
    read_digit unit total (n / 10) (n % 10) tail,
  )
]

show_fuel-append : (f n : ℕ) (a b : Text) → show_fuel f n a ++ b ≡ show_fuel f n (a ++ b)
unfolding show_fuel
show_fuel-append zero n a b = refl
show_fuel-append (suc f) n a b = ground (arith, show_fuel-append f (n / 10) ((48 + n % 10) ∷ a) b)

pub read-show :
    (unit : ℕ → ℕ) (total n : ℕ) (tail : Text)
    → read_from unit total 0 (show n ++ tail) ≡ read_from unit total n tail
unfolding show
read-show unit total n tail =
    rw show_fuel-append (read_show_fuel unit (suc n) total n tail (omega arith))
