-- ===== src/Dates.antt =====
-- The texts of dates and sizes: `_toUtcIso`, `_parseDt`, `formatDate`, `relativeTime`, `formatSize`,
-- `formatSslExpiry` and `formatDomainExpiry`. What `Date` computes is a parameter.
pub mod Laws
use domain_ssl_checker.Digits.{show, is_digit}
use domain_ssl_checker.Forms.Numbers.{parse_int, is_blank}
use domain_ssl_checker.Base.{
  Text, ℕ, Option, List, ◌∷◌, Bool, ℤ, split, if◌then◌else◌, ◌+◌, ◌/◌, codes, ◌*◌, ◌==◌, ◌&&◌,
  false, reverse, trim, some, none, ltb, ◌++◌, [], ◌||◌, ◌-◌, ◌%◌,
}

-- `s.replace(' ', 'T')`: the first space only
abbrev pub replace_space : Text → Text
replace_space [] = []
replace_space (c ∷ cs) = let rest = replace_space cs in if c == 32 then b'T' ∷ cs else c ∷ rest

-- `[+-]\d{2}:?\d{2}` at the start of a reversed text
abbrev pub is_sign : ℕ → Bool
is_sign c = c == b'+' || c == b'-'

abbrev pub ends_hours : Text → Bool
ends_hours (a ∷ b ∷ c ∷ cs) = is_digit a && is_digit b && is_sign c
ends_hours _ = false

abbrev pub ends_offset : Text → Bool
ends_offset (a ∷ b ∷ c ∷ cs) =
    is_digit a && is_digit b && (ends_hours (c ∷ cs) || (c == b':' && ends_hours cs))
ends_offset _ = false

abbrev pub ends_z : Text → Bool
ends_z [] = false
ends_z (c ∷ cs) = c == b'Z'

-- `/Z$|[+-]\d{2}:?\d{2}$/`
abbrev pub has_zone : Text → Bool
has_zone t = ends_z (reverse t) || ends_offset (reverse t)

unfoldable pub to_utc_iso : Text → Text
to_utc_iso [] = []
to_utc_iso (c ∷ cs) =
    let t = replace_space (trim (c ∷ cs)) in if has_zone t then t else t ++ b'Z' ∷ []

-- The numbers of a date and a time; NaN is `none`, and the month counts from 1.
pub record Parts : Type 0 where
  pub year : Option ℤ
  pub month : Option ℤ
  pub day : Option ℤ
  pub hour : Option ℤ
  pub min : Option ℤ

abbrev pub parts_of : List Text → List Text → Option Parts
parts_of (y ∷ m ∷ d ∷ ds) (h ∷ n ∷ ts) = some (record {
  year = parse_int y;
  month = parse_int m;
  day = parse_int d;
  hour = parse_int h;
  min = parse_int n;
})
parts_of _ _ = none

abbrev pub parse_words : List Text → Option Parts
parse_words (date ∷ time ∷ ws) = parts_of (split b'-' date) (split b':' time)
parse_words _ = none

unfoldable pub parse_dt : Text → Option Parts
parse_dt s = parse_words (split 32 s)

-- A local time as `_toLocal` reads it off a `Date`; the month counts from 0.
pub record Local : Type 0 where
  pub month : ℕ
  pub day : ℕ
  pub hour : ℕ
  pub min : ℕ
  pub year : ℕ

-- `n.toString().padStart(2, '0')`
abbrev pub pad2 : ℕ → Text
pad2 n = if ltb n 10 then b'0' ∷ show n else show n

abbrev pub local_text : Text → Local → Text
local_text label p =
    show (p.month + 1)
    ++ codes "/"
    ++ show p.day
    ++ codes "/"
    ++ show p.year
    ++ codes " "
    ++ pad2 p.hour
    ++ codes ":"
    ++ pad2 p.min
    ++ codes " "
    ++ label

-- `formatDate`; `to_local` is the `Date` of the numbers, moved by `_timezoneOffsetH`.
unfoldable pub format_date : (Parts → Local) → Text → Text → Text
format_date to_local label [] = []
format_date to_local label (c ∷ cs) = elim (parse_dt (c ∷ cs)) [
  | none ↦ c ∷ cs
  | some p ↦ local_text label (to_local p)
]

-- A time that has passed, by the unit that is shown.
pub data Ago : Type 0 where
  just_now : Ago
  seconds minutes hours days months : ℕ → Ago

-- From the time that has passed, in milliseconds.
unfoldable pub time_ago : ℕ → Ago
time_ago diff =
    let sec = diff / 1000 in
    let min = sec / 60 in
    let hr = min / 60 in
    let day = hr / 24 in
    if ltb sec 60
    then seconds sec
    else if ltb min 60
    then minutes min
    else if ltb hr 24
    then hours hr
    else if ltb day 30
    then days day
    else months (day / 30)

abbrev pub ago_text : Ago → Text
ago_text just_now = codes "just now"
ago_text (seconds n) = show n ++ codes "s ago"
ago_text (minutes n) = show n ++ codes "m ago"
ago_text (hours n) = show n ++ codes "h ago"
ago_text (days n) = show n ++ codes "d ago"
ago_text (months n) = show n ++ codes "mo ago"

abbrev pub since : ℕ → ℕ → Ago
since now t = if ltb now t then just_now else time_ago (now - t)

-- `relativeTime`; `read_time` is `new Date(s).getTime()`, `none` for NaN.
unfoldable pub relative_time : (Text → Option ℕ) → ℕ → Text → Text
relative_time read_time now [] = []
relative_time read_time now (c ∷ cs) = elim (read_time (to_utc_iso (c ∷ cs))) [
  | none ↦ c ∷ cs
  | some t ↦ ago_text (since now t)
]

-- `(n / unit).toFixed(1)`: tenths, a half rounded up
abbrev pub tenths : ℕ → ℕ → ℕ
tenths n unit = (20 * n + unit) / (2 * unit)

abbrev pub fixed1 : ℕ → Text
fixed1 t = show (t / 10) ++ codes "." ++ show (t % 10)

unfoldable pub format_size : ℕ → Text
format_size bytes =
    if ltb bytes 1024
    then show bytes ++ codes " B"
    else if ltb bytes (1024 * 1024)
    then fixed1 (tenths bytes 1024) ++ codes " KB"
    else fixed1 (tenths bytes (1024 * 1024)) ++ codes " MB"
