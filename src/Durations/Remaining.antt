-- ===== src/Durations/Remaining.antt =====
-- `fmtTimeRemaining` tells the exact number of days.
use mathlib.Core.List.{append-nil}
use native.Mathlib.Nat.{div-add-mod}
use native.Mathlib.Decide.{dec_lt}
use domain_ssl_checker.Digits.{read, read_from, is_digit}
use domain_ssl_checker.Digits.Laws.{read-show}
use domain_ssl_checker.Durations.{count_text, in_units, fmt_time_remaining}
use domain_ssl_checker.Base.{
  ℕ, Text, if◌then◌else◌, Bool, ◌≡◌, not, ◌==◌, all, true, ◌&&◌, ◌++◌, ltb, ◌∷◌, arith, ◌+◌, [],
  ◌*◌, refl, append_assoc, ◌∙◌, codes, ◌/◌, some, Bool-cases, pos, inl, inr, ◌<◌, ◌%◌,
}

-- The first letters of year, month, week and day, in days.
abbrev pub days_of : ℕ → ℕ
days_of c =
    if c == b'y'
    then 365
    else if c == b'm'
    then 30
    else if c == b'w'
    then 7
    else if c == b'd'
    then 1
    else 0

abbrev no_digits : Text → Bool
no_digits w = all (λ c. not (is_digit c)) w

-- With no number at hand, text without digits adds nothing.
read_word :
    (total : ℕ) (w tail : Text)
    → no_digits w ≡ true
    → read_from days_of total 0 (w ++ tail) ≡ read_from days_of total 0 tail
unfolding read_from
read_word total [] tail h = refl
read_word total (c ∷ w) tail h = ground (arith, read_word total w tail)

-- A blank, then a unit's letter.
read_unit :
    (total n c : ℕ) (tail : Text)
    → (not (is_digit c) && ltb 0 (days_of c)) ≡ true
    → read_from days_of total n (32 ∷ c ∷ tail) ≡ read_from days_of (total + n * days_of c) 0 tail
unfolding read_from
read_unit total n c tail h = ground arith

plural : (n : ℕ) → no_digits (if n == 1 then [] else codes "s") ≡ true
plural n = ground arith

read_count :
    (total n c : ℕ) (w tail : Text)
    → (not (is_digit c) && ltb 0 (days_of c)) ≡ true
    → no_digits w ≡ true
    → read_from days_of total 0 (count_text n (c ∷ w) ++ tail)
      ≡ read_from days_of (total + n * days_of c) 0 tail
read_count total n c w tail h k =
    rw (append_assoc, append_assoc, append_assoc)
      (read-show days_of total n _
        ∙ read_unit total n c _ h
        ∙ read_word (total + n * days_of c) w _ k
        ∙ read_word (total + n * days_of c) (if n == 1 then [] else codes "s") tail (plural n))

-- `, ${rem} day…` where something remains
read_rest :
    (total rem : ℕ)
    → read_from days_of total 0
        (if ltb 0 rem then codes ", " ++ count_text rem (codes "day") else [])
      ≡ total + rem
read_rest total rem = elim (Bool-cases (ltb 0 rem)) [
  | inl e ↦
      rw (e, ← append-nil (count_text rem (codes "day")))
        (read_word total (codes ", ") _ refl
          ∙ read_count total rem b'd' (codes "ay") [] refl refl
          ∙ unfold read_from in omega arith)
  | inr e ↦ rw e (unfold read_from in ground arith)
]

unit_pos : (c : ℕ) → (not (is_digit c) && ltb 0 (days_of c)) ≡ true → 0 < days_of c
unit_pos c h = ground arith

div_rem : (k days : ℕ) → 0 < k → 0 + days / k * k + (if ltb 1 k then days % k else 0) ≡ days
div_rem k days h = elim (dec_lt 1 k) [
  | yes p ↦ grind (arith, div-add-mod)
  | no p ↦ let one : k ≡ 1 = omega arith in rw one (omega arith)
]

read-in_units :
    (c : ℕ) (w : Text) (days : ℕ)
    → (not (is_digit c) && ltb 0 (days_of c)) ≡ true
    → no_digits w ≡ true
    → read days_of (in_units (days_of c) (c ∷ w) days) ≡ days
unfolding read
read-in_units c w days h k =
    read_count 0 (days / days_of c) c w _ h k
    ∙ read_rest (0 + days / days_of c * days_of c) _
    ∙ div_rem (days_of c) days (unit_pos c h)

read_days : (days : ℕ) → read days_of (count_text days (codes "day")) ≡ days
unfolding read
read_days days =
    rw (← append-nil (count_text days (codes "day")))
      (read_count 0 days b'd' (codes "ay") [] refl refl ∙ unfold read_from in omega arith)

-- The text of the days that remain gives the number of days back.
pub read-fmt_time_remaining :
    (days : ℕ) → read days_of (fmt_time_remaining (some (pos days))) ≡ days
unfolding fmt_time_remaining
read-fmt_time_remaining days = ground (
  arith,
  read-in_units b'y' (codes "ear") days refl refl,
  read-in_units b'm' (codes "onth") days refl refl,
  read-in_units b'w' (codes "eek") days refl refl,
  read-in_units b'd' (codes "ay") days refl refl,
  read_days days,
)
