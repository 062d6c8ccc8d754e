-- ===== src/Forms/Numbers.antt =====
-- `parseInt` on the decimal text of an input, and the fallback of `parseInt(s) || n`. The inputs are
-- of the type `number`, so a text in another base does not occur.
pub mod Laws
use mathlib.Core.Option
use domain_ssl_checker.Digits.{is_digit}
use domain_ssl_checker.Base.{
  Text, ℕ, Option, ◌∷◌, none, ℤ, Bool, if◌then◌else◌, ◌*◌, some, pos, trim_start, true, [], ◌+◌,
  suc, ◌==◌, false, ◌-◌, negsuc, zero,
}

-- The digits at the start of a text.
abbrev pub digits_of : Text → Text
digits_of [] = []
digits_of (c ∷ cs) = let rest = digits_of cs in if is_digit c then c ∷ rest else []

abbrev pub value_from : ℕ → Text → ℕ
value_from acc [] = acc
value_from acc (c ∷ cs) = value_from (acc * 10 + (c - 48)) cs

abbrev pub value_of : Text → Option ℕ
value_of [] = none
value_of (c ∷ cs) = some (value_from 0 (c ∷ cs))

abbrev negated : ℕ → ℤ
negated zero = pos 0
negated (suc n) = negsuc n

abbrev pub signed : Text → Option ℤ
signed [] = none
signed (c ∷ cs) =
    if c == b'-'
    then Option.map negated (value_of (digits_of cs))
    else if c == b'+'
    then Option.map pos (value_of (digits_of cs))
    else Option.map pos (value_of (digits_of (c ∷ cs)))

unfoldable pub parse_int : Text → Option ℤ
parse_int s = signed (trim_start s)

-- `n || d`
abbrev pub int_or : Option ℤ → ℕ → ℤ
int_or none d = pos d
int_or (some (pos zero)) d = pos d
int_or (some (pos (suc n))) d = pos (suc n)
int_or (some (negsuc n)) d = negsuc n

-- `s || null`
abbrev pub or_null : Text → Option Text
or_null [] = none
or_null (c ∷ cs) = some (c ∷ cs)

abbrev pub is_blank : Text → Bool
is_blank [] = true
is_blank (c ∷ cs) = false

-- `n || d`, of a number that may be null
abbrev pub num_or : Option ℕ → ℕ → ℕ
num_or none d = d
num_or (some n) d = if n == 0 then d else n
