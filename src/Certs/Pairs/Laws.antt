-- ===== src/Certs/Pairs/Laws.antt =====
-- What the serial number of a certificate says.
use domain_ssl_checker.Certs.Pairs.{
  in_pairs, pairs_from, joined, is_hex, is_hex_digit, serial_text, is_line_end,
}
use domain_ssl_checker.Base.{
  ℕ, Text, Bool, List, true, false, some, none, [], ◌∷◌, ◌==◌, not, filter, if◌then◌else◌, codes,
  join, ltb, length, ◌≡◌, refl, arith, ap, ◌∙◌, ◌<◌, and_true,
}

-- A text without its last code unit, if it has an odd number of them
abbrev pub even_part : Text → Text
even_part [] = []
even_part (a ∷ []) = []
even_part (a ∷ b ∷ t) = a ∷ b ∷ even_part t

abbrev pub not_colon : ℕ → Bool
not_colon c = not (c == 58)

hex-plain : (c : ℕ) → is_hex_digit c ≡ true → (is_line_end c ≡ false) × (not_colon c ≡ true)
unfolding is_line_end
hex-plain c h = ground arith

-- The pairs of a text one after another
abbrev pub chunks : Text → List Text
chunks [] = []
chunks (a ∷ []) = []
chunks (a ∷ b ∷ t) = (a ∷ b ∷ []) ∷ chunks t

pairs_from-none :
    (a : ℕ) (t : Text) → is_line_end a ≡ false → pairs_from none (a ∷ t) ≡ pairs_from (some a) t
unfolding pairs_from
pairs_from-none a t e = ap (λ x. pairs_from (if x then none else some a) t) e

pairs_from-some :
    (a b : ℕ) (t : Text)
    → is_line_end b ≡ false
    → pairs_from (some a) (b ∷ t) ≡ (a ∷ b ∷ []) ∷ pairs_from none t
unfolding pairs_from
pairs_from-some a b t e =
    ap (λ x. if x then pairs_from none t else (a ∷ b ∷ []) ∷ pairs_from none t) e

in_pairs-chunks : (t : Text) → is_hex t ≡ true → in_pairs t ≡ chunks t
unfolding in_pairs pairs_from is_hex
in_pairs-chunks [] h = refl
in_pairs-chunks (a ∷ []) h = refl
in_pairs-chunks (a ∷ b ∷ t) h =
    let (ha, rest) = and_true (is_hex_digit a) _ h in
    let (hb, last) = and_true (is_hex_digit b) _ rest in
    pairs_from-none a (b ∷ t) (hex-plain a ha).0
    ∙ pairs_from-some a b t (hex-plain b hb).0
    ∙ ap ((a ∷ b ∷ []) ∷◌) (in_pairs-chunks t last)

-- The pairs with colons between them, with the colons taken out again
filter-join :
    (t : Text) → is_hex t ≡ true → filter not_colon (join (codes ":") (chunks t)) ≡ even_part t
unfolding is_hex
filter-join [] h = refl
filter-join (a ∷ []) h = refl
filter-join (a ∷ b ∷ []) h =
    let (ha, rest) = and_true (is_hex_digit a) _ h in
    let (hb, last) = and_true (is_hex_digit b) _ rest in
    rw (hex-plain a ha).1 (rw (hex-plain b hb).1 refl)
filter-join (a ∷ b ∷ c ∷ []) h =
    let (ha, rest) = and_true (is_hex_digit a) _ h in
    let (hb, last) = and_true (is_hex_digit b) _ rest in
    rw (hex-plain a ha).1 (rw (hex-plain b hb).1 refl)
filter-join (a ∷ b ∷ c ∷ d ∷ t) h =
    let (ha, rest) = and_true (is_hex_digit a) _ h in
    let (hb, last) = and_true (is_hex_digit b) _ rest in
    rw (hex-plain a ha).1
      (rw (hex-plain b hb).1 (ap (λ u. a ∷ b ∷ u) (filter-join (c ∷ d ∷ t) last)))

joined-chunks :
    (a b : ℕ) (t : Text)
    → joined (chunks (a ∷ b ∷ t)) ≡ some (join (codes ":") (chunks (a ∷ b ∷ t)))
joined-chunks a b t = refl

-- A serial number of more than four hexadecimal digits is shown in upper case and in pairs with colons:
-- without its colons, it is the serial number if that has an even number of digits, and else the serial
-- number without its last digit.
pub serial_text_lem :
    (upper : Text → Text) (t : Text)
    → is_hex t ≡ true
    → 4 < length t
    → let pairs = join (codes ":") (in_pairs t) in
      (serial_text upper t ≡ some (upper pairs)) × (filter not_colon pairs ≡ even_part t)
unfolding serial_text
serial_text_lem upper [] h l = ground arith
serial_text_lem upper (a ∷ []) h l = ground arith
serial_text_lem upper (a ∷ b ∷ t) h l =
    let long : ltb 4 (length (a ∷ b ∷ t)) ≡ true = ground arith in
    rw (in_pairs-chunks (a ∷ b ∷ t) h) (rw h (rw long (refl, filter-join (a ∷ b ∷ t) h)))
