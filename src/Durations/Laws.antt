-- ===== src/Durations/Laws.antt =====
-- What can be read back from a duration's text.
use domain_ssl_checker.Digits.{show, read, read_from, is_digit}
use domain_ssl_checker.Digits.Laws.{read-show}
use domain_ssl_checker.Durations.{
  Item, positive, or_zero_minutes, join_items, format_uptime, format_duration,
  format_duration_compact, format_duration_long,
}
use domain_ssl_checker.Base.{
  ℕ, List, ◌≡◌, if◌then◌else◌, Text, All, ◌==◌, ◌<◌, ◌++◌, ◌+◌, ◌∷◌, arith, ◌*◌, ◌∙◌, [], refl, ap,
  append_assoc, Bool-cases, ◌/◌, ltb, inl, inr, ◌%◌, not, pos, codes, some, ◌&&◌, leb, true,
}

-- The units of the letters d, h, m and s, in seconds.
abbrev pub seconds_of : ℕ → ℕ
seconds_of c =
    if c == b'd'
    then 86400
    else if c == b'h'
    then 3600
    else if c == b'm'
    then 60
    else if c == b's'
    then 1
    else 0

abbrev total_of : List Item → ℕ
total_of [] = 0
total_of ((n, c) ∷ items) = n * seconds_of c + total_of items

-- The letters of the program's items.
abbrev IsUnit : Item → Type 0
IsUnit (n, c) = (not (is_digit c) && ltb 0 (seconds_of c)) ≡ true

read_item :
    (total n c : ℕ) (tail : Text)
    → IsUnit (n, c)
    → read_from seconds_of total 0 (show n ++ c ∷ tail)
      ≡ read_from seconds_of (total + n * seconds_of c) 0 tail
unfolding read_from
read_item total n c tail u = rw read-show (ground arith)

read_blank :
    (total : ℕ) (tail : Text)
    → read_from seconds_of total 0 (32 ∷ tail) ≡ read_from seconds_of total 0 tail
unfolding read_from
read_blank total tail = ap (λ t. read_from seconds_of t 0 tail) (omega arith)

read_items :
    (total : ℕ) (items : List Item)
    → All IsUnit items
    → read_from seconds_of total 0 (join_items items) ≡ total + total_of items
read_items total [] u = unfold read_from in omega arith
read_items total ((n, c) ∷ []) (u, us) = read_item total n c [] u ∙ unfold read_from in omega arith
read_items total ((n, c) ∷ i ∷ items) (u, us) =
    rw (append_assoc, append_assoc)
      (read_item total n c (32 ∷ join_items (i ∷ items)) u
        ∙ read_blank (total + n * seconds_of c) (join_items (i ∷ items))
        ∙ read_items (total + n * seconds_of c) (i ∷ items) us
        ∙ omega arith)

total_of-positive : (items : List Item) → total_of (positive items) ≡ total_of items
total_of-positive [] = refl
total_of-positive ((n, c) ∷ items) = ground (arith, total_of-positive items)

All-positive : (items : List Item) → All IsUnit items → All IsUnit (positive items)
All-positive [] us = tt
All-positive ((n, c) ∷ items) (u, us) = elim (Bool-cases (ltb 0 n)) [
  | inl e ↦ rw e (u, All-positive items us)
  | inr e ↦ rw e (All-positive items us)
]

read-or_zero_minutes :
    (items : List Item)
    → All IsUnit items
    → read seconds_of (join_items (or_zero_minutes items)) ≡ total_of items
unfolding read
read-or_zero_minutes [] us = read_items 0 ((0, b'm') ∷ []) (refl, tt) ∙ omega arith
read-or_zero_minutes (i ∷ items) us = read_items 0 (i ∷ items) us ∙ omega arith

read-positive :
    (items : List Item)
    → All IsUnit items
    → read seconds_of (join_items (or_zero_minutes (positive items))) ≡ total_of items
read-positive items us =
    read-or_zero_minutes (positive items) (All-positive items us) ∙ total_of-positive items

-- The text of an uptime gives the uptime back, up to the seconds beyond the last full minute.
pub read-format_uptime : (seconds : ℕ) → read seconds_of (format_uptime seconds) ≡ seconds / 60 * 60
unfolding format_uptime
read-format_uptime seconds =
    read-positive
      ((seconds / 86400, b'd') ∷ (seconds % 86400 / 3600, b'h') ∷ (seconds % 3600 / 60, b'm') ∷ [])
      (refl, (refl, (refl, tt)))
    ∙ omega arith

-- The countdown of a positive number of milliseconds gives its full minutes back.
pub read-format_duration :
    (ms : ℕ) → 0 < ms → read seconds_of (format_duration (pos ms)) ≡ ms / 60000 * 60
unfolding format_duration
read-format_duration ms h = elim (Bool-cases (leb ms 0)) [
  | inl e ↦ absurd (ground arith)
  | inr e ↦ rw e (
      read-positive ((ms / 3600000, b'h') ∷ (ms % 3600000 / 60000, b'm') ∷ []) (refl, (refl, tt))
      ∙ omega arith)
]

read-format_duration_compact :
    (h m d hr : ℕ)
    → read seconds_of (format_duration_compact h m d hr) ≡ d * 86400 + hr * 3600 + m * 60 + h * 3600
unfolding format_duration_compact
read-format_duration_compact h m d hr =
    read-positive ((d, b'd') ∷ (hr, b'h') ∷ (m, b'm') ∷ (h, b'h') ∷ [])
      (refl, (refl, (refl, (refl, tt))))
    ∙ omega arith

read_seconds : (n : ℕ) → read seconds_of (show n ++ codes "s") ≡ n
unfolding read
read_seconds n = read_item 0 n b's' [] refl ∙ unfold read_from in omega arith

read_minutes :
    (m n : ℕ) → read seconds_of (show m ++ codes "m " ++ show n ++ codes "s") ≡ m * 60 + n
unfolding read
read_minutes m n =
    rw (append_assoc, append_assoc)
      (read_item 0 m b'm' (32 ∷ show n ++ codes "s") refl
        ∙ read_blank (0 + m * 60) (show n ++ codes "s")
        ∙ read_item (0 + m * 60) n b's' [] refl
        ∙ unfold read_from in omega arith)

-- The unit that a long duration is rounded down to, below 30 days.
abbrev pub step_of : ℕ → ℕ
step_of seconds = if ltb seconds 3600 then 1 else if ltb seconds 86400 then 60 else 3600

-- Below 30 days the long text gives the duration back: to the second below an hour, to the minute
-- below a day, and to the hour from then on.
pub read-format_duration_long :
    (seconds : ℕ)
    → seconds < 2592000
    → read seconds_of (format_duration_long (some seconds))
      ≡ seconds / step_of seconds * step_of seconds
unfolding format_duration_long
read-format_duration_long seconds h = ground (
  arith,
  read_seconds seconds,
  read_minutes (seconds / 60) (seconds % 60),
  read-format_duration_compact (seconds / 60 / 60) (seconds / 60 % 60) 0 0,
  read-format_duration_compact 0 0 (seconds / 60 / 60 / 24) (seconds / 60 / 60 % 24),
)
