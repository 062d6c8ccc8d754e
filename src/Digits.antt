-- ===== src/Digits.antt =====
-- Decimal text of a number, as `String(n)` and `n + 'd'` give it, and a reader that adds up the
-- numbers of a text by the letters that follow them.
pub mod Laws
use domain_ssl_checker.Base.{
  ℕ, Text, Bool, if◌then◌else◌, suc, leb, ◌+◌, ◌*◌, ◌∷◌, ◌/◌, [], ◌&&◌, ◌-◌, ◌%◌, ◌==◌, ltb, zero,
}

-- The digits of `n` in front of `tail`. Each round divides by 10, so `suc n` rounds are enough.
unfoldable pub show_fuel : ℕ → ℕ → Text → Text
show_fuel zero n tail = tail
show_fuel (suc f) n tail =
    let rest = show_fuel f (n / 10) ((48 + n % 10) ∷ tail) in
    if ltb n 10 then (48 + n) ∷ tail else rest

-- `String(n)`
unfoldable pub show : ℕ → Text
unfolding show_fuel
show n = show_fuel (suc n) n []

abbrev pub is_digit : ℕ → Bool
is_digit c = leb 48 c && leb c 57

-- A letter with a unit adds the number before it, in that unit; other characters are skipped.
abbrev pub read_total : (ℕ → ℕ) → ℕ → ℕ → ℕ → ℕ
read_total unit total acc c = if is_digit c then total else total + acc * unit c

abbrev pub read_acc : (ℕ → ℕ) → ℕ → ℕ → ℕ
read_acc unit acc c = if is_digit c then acc * 10 + (c - 48) else if unit c == 0 then acc else 0

unfoldable pub read_from : (ℕ → ℕ) → ℕ → ℕ → Text → ℕ
read_from unit total acc [] = total
read_from unit total acc (c ∷ cs) =
    read_from unit (read_total unit total acc c) (read_acc unit acc c) cs

-- The sum of the numbers of a text, each in the unit of its letter.
unfoldable pub read : (ℕ → ℕ) → Text → ℕ
read unit s = read_from unit 0 0 s
