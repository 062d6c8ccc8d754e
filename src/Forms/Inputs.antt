-- ===== src/Forms/Inputs.antt =====
-- What an element of a form keeps of a text that is assigned to its `value`: an input of one line, a
-- `<textarea>`, a `<select>` with these options, and an input of a time.
use domain_ssl_checker.Digits.{is_digit}
use domain_ssl_checker.Base.{
  ℕ, Text, List, Bool, true, false, [], ◌∷◌, ◌==◌, ◌||◌, ◌&&◌, ◌++◌, ◌*◌, ◌+◌, ◌-◌, not, filter,
  any, if◌then◌else◌, leb, text_eq, ◌≡◌, refl, ap, ◌∙◌, any-append, or_false, All, join, codes,
}

abbrev pub is_newline : ℕ → Bool
is_newline c = c == 10 || c == 13

-- An input of one line drops the line ends.
unfoldable pub one_line : Text → Text
one_line t = filter (λ c. not (is_newline c)) t

-- A `<textarea>` gives each end of a line as one line feed.
unfoldable pub area_value : Text → Text
area_value [] = []
area_value (c ∷ []) = if c == 13 then 10 ∷ [] else c ∷ []
area_value (c ∷ d ∷ t) =
    let rest = area_value (d ∷ t) in
    if c == 13 then (if d == 10 then rest else 10 ∷ rest) else c ∷ rest

-- A `<select>` has no value where no option has it.
unfoldable pub select_value : List Text → Text → Text
select_value options t = if any (λ o. text_eq o t) options then t else []

abbrev pub is_pair : ℕ → ℕ → ℕ → Bool
is_pair most a b = is_digit a && is_digit b && leb ((a - 48) * 10 + (b - 48)) most

-- ".5", ".05" and ".005"
abbrev pub is_fraction : Text → Bool
is_fraction [] = true
is_fraction (p ∷ []) = false
is_fraction (p ∷ a ∷ []) = p == 46 && is_digit a
is_fraction (p ∷ a ∷ b ∷ []) = p == 46 && is_digit a && is_digit b
is_fraction (p ∷ a ∷ b ∷ c ∷ t) = p == 46 && is_digit a && is_digit b && is_digit c && text_eq t []

abbrev pub is_seconds : Text → Bool
is_seconds [] = true
is_seconds (p ∷ []) = false
is_seconds (p ∷ a ∷ []) = false
is_seconds (p ∷ a ∷ b ∷ t) = p == 58 && is_pair 59 a b && is_fraction t

-- "09:30", "09:30:15" and with parts of a second
unfoldable pub is_time : Text → Bool
is_time (a ∷ b ∷ p ∷ c ∷ d ∷ t) = p == 58 && is_pair 23 a b && is_pair 59 c d && is_seconds t
is_time _ = false

-- An input of a time is empty where the text is none.
unfoldable pub time_value : Text → Text
time_value t = if is_time t then t else []

-- A text on one line stays as it is.
pub one_line_same : (t : Text) → any is_newline t ≡ false → one_line t ≡ t
unfolding one_line
one_line_same [] h = refl
one_line_same (c ∷ t) h =
    let (here, rest) = or_false (is_newline c) _ h in rw here (ap (c ∷◌) (one_line_same t rest))

pub area_value_same : (t : Text) → any (λ c. c == 13) t ≡ false → area_value t ≡ t
unfolding area_value
area_value_same [] h = refl
area_value_same (c ∷ []) h = let (here, rest) = or_false (c == 13) _ h in rw here refl
area_value_same (c ∷ d ∷ t) h =
    let (here, rest) = or_false (c == 13) _ h in rw here (ap (c ∷◌) (area_value_same (d ∷ t) rest))

-- Texts on one line, joined by a comma, are on one line.
pub join_one_line :
    (ts : List Text)
    → All (λ t. any is_newline t ≡ false) ts
    → any is_newline (join (codes ", ") ts) ≡ false
join_one_line [] h = refl
join_one_line (t ∷ []) h = h.0
join_one_line (t ∷ u ∷ ts) h =
    any-append is_newline (t ++ codes ", ") (join (codes ", ") (u ∷ ts))
    ∙ rw (any-append is_newline t (codes ", "), h.0) (join_one_line (u ∷ ts) h.1)

pub select_value_same :
    (options : List Text) (t : Text)
    → any (λ o. text_eq o t) options ≡ true
    → select_value options t ≡ t
unfolding select_value
select_value_same options t h = rw h refl
