-- ===== src/Durations.antt =====
-- The texts of durations: `formatUptime`, `formatDuration`, `formatDurationLong`,
-- `formatDurationCompact` and `fmtTimeRemaining`.
-- The numbers that they take are whole: seconds and days from the server, and milliseconds.
pub mod Laws
pub mod Remaining
use domain_ssl_checker.Digits.{show}
use domain_ssl_checker.Base.{
  ℕ, Text, List, ℤ, Option, ◌++◌, filter, ◌∷◌, join, ◌/◌, negsuc, codes, [], ltb, map, ◌%◌, pos,
  if◌then◌else◌, some, leb, none, ◌==◌,
}

-- A number with the letter of its unit, as in `d + 'd'`.
abbrev pub Item : Type 0
Item = ℕ × ℕ

abbrev pub item_text : Item → Text
item_text (n, c) = show n ++ c ∷ []

-- `if (n > 0) parts.push(n + c);` for each item, in order
abbrev pub positive : List Item → List Item
positive items = filter (λ i. ltb 0 i.0) items

-- `parts.length ? parts : ['0m']`
abbrev pub or_zero_minutes : List Item → List Item
or_zero_minutes [] = (0, b'm') ∷ []
or_zero_minutes (i ∷ items) = i ∷ items

-- `parts.join(' ')`
abbrev pub join_items : List Item → Text
join_items items = join (codes " ") (map item_text items)

unfoldable pub format_uptime : ℕ → Text
format_uptime seconds = join_items (
    or_zero_minutes (
      positive (
        (seconds / 86400, b'd')
        ∷ (seconds % 86400 / 3600, b'h')
        ∷ (seconds % 3600 / 60, b'm')
        ∷ [])))

unfoldable pub format_duration : ℤ → Text
format_duration (negsuc n) = codes "now"
format_duration (pos ms) =
    if leb ms 0
    then codes "now"
    else join_items
        (or_zero_minutes (positive ((ms / 3600000, b'h') ∷ (ms % 3600000 / 60000, b'm') ∷ [])))

unfoldable pub format_duration_compact : ℕ → ℕ → ℕ → ℕ → Text
format_duration_compact h m d hr =
    join_items (or_zero_minutes (positive ((d, b'd') ∷ (hr, b'h') ∷ (m, b'm') ∷ (h, b'h') ∷ [])))

-- From 30 days on.
unfoldable pub format_months : ℕ → Text
format_months days =
    let months = days / 30 in
    if ltb months 12
    then show months ++ codes "mo " ++ show (days % 30) ++ codes "d"
    else show (months / 12) ++ codes "yr " ++ show (months % 12) ++ codes "mo"

-- `none` is null.
unfoldable pub format_duration_long : Option ℕ → Text
format_duration_long none = codes "N/A"
format_duration_long (some seconds) =
    let min' = seconds / 60 in
    let hr = min' / 60 in
    let days = hr / 24 in
    if ltb seconds 60
    then show seconds ++ codes "s"
    else if ltb min' 60
    then show min' ++ codes "m " ++ show (seconds % 60) ++ codes "s"
    else if ltb hr 24
    then format_duration_compact hr (min' % 60) 0 0
    else if ltb days 30
    then format_duration_compact 0 0 days (hr % 24)
    else format_months days

-- `${n} ${word}${n !== 1 ? 's' : ''}`
abbrev pub count_text : ℕ → Text → Text
count_text n word = show n ++ codes " " ++ word ++ (if n == 1 then [] else codes "s")

-- One round of the loop over `units`, where it returns.
abbrev pub in_units : ℕ → Text → ℕ → Text
in_units div word days =
    let rem = if ltb 1 div then days % div else 0 in
    count_text (days / div) word
    ++ (if ltb 0 rem then codes ", " ++ count_text rem (codes "day") else [])

unfoldable pub fmt_time_remaining : Option ℤ → Text
fmt_time_remaining none = []
fmt_time_remaining (some (negsuc n)) = []
fmt_time_remaining (some (pos days)) =
    if leb 365 days
    then in_units 365 (codes "year") days
    else if leb 30 days
    then in_units 30 (codes "month") days
    else if leb 7 days
    then in_units 7 (codes "week") days
    else if leb 1 days
    then in_units 1 (codes "day") days
    else count_text days (codes "day")
