-- ===== src/Certs/Pairs.antt =====
-- The fingerprint and the serial number of a certificate, in pairs of digits with colons between them:
-- `fpFormatted` and `serialFormatted` of `openCertModal`.
pub mod Laws
use mathlib.Core.Option
use domain_ssl_checker.Base.{
  ℕ, Text, Option, Bool, List, true, none, some, [], ◌∷◌, ◌==◌, ◌||◌, ◌&&◌, if◌then◌else◌, codes,
  join, leb, ltb, length,
}

-- The code units that `.` of a regular expression does not take
unfoldable pub is_line_end : ℕ → Bool
is_line_end c = c == 10 || c == 13 || c == 8232 || c == 8233

-- `t.match(/.{2}/g)`, `[]` for null: the first of two code units is held until the second is seen.
unfoldable pub pairs_from : Option ℕ → Text → List Text
pairs_from held [] = []
pairs_from none (a ∷ t) = pairs_from (if is_line_end a then none else some a) t
pairs_from (some a) (b ∷ t) =
    let rest = pairs_from none t in if is_line_end b then rest else (a ∷ b ∷ []) ∷ rest

unfoldable pub in_pairs : Text → List Text
in_pairs t = pairs_from none t

-- `.join(':')`, `none` where null has no `join`
abbrev pub joined : List Text → Option Text
joined [] = none
joined (p ∷ ps) = some (join (codes ":") (p ∷ ps))

-- `/^[0-9A-Fa-f]+$/`, on a text that is not empty
abbrev pub is_hex_digit : ℕ → Bool
is_hex_digit c = leb 48 c && leb c 57 || leb 65 c && leb c 70 || leb 97 c && leb c 102

unfoldable pub is_hex : Text → Bool
is_hex [] = true
is_hex (c ∷ cs) = is_hex_digit c && is_hex cs

module _ (upper : Text → Text) where
  -- `fpFormatted`
  unfoldable pub fingerprint_text : Text → Option Text
  fingerprint_text t = if length t == 64 then Option.map upper (joined (in_pairs t)) else some t

  -- `serialFormatted`
  unfoldable pub serial_text : Text → Option Text
  serial_text t =
      if ltb 4 (length t) && is_hex t then Option.map upper (joined (in_pairs t)) else some t
