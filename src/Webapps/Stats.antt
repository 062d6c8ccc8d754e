-- ===== src/Webapps/Stats.antt =====
-- `renderWebAppStats`: the counts on the filter chips and the average response time.
use domain_ssl_checker.Webapps.{Webapp}
use domain_ssl_checker.Base.{
  filter, ℕ, Text, Option, List, Bool, false, codes, length, ◌∷◌, none, if◌then◌else◌, All, some,
  ◌||◌, ◌+◌, ◌≡◌, text_eq, not, [], ◌*◌, arith, truthy, ◌/◌, refl,
}

pub record WebappStats : Type 0 where
  pub total : ℕ
  pub up : ℕ
  pub down : ℕ
  pub slow : ℕ
  pub unknown : ℕ
  -- `none` is the dash.
  pub average : Option ℕ

-- `a.status === s`
abbrev pub has_status : Text → Option Text → Bool
has_status s none = false
has_status s (some t) = text_eq t s

-- `a.status === 'unknown' || !a.status`
abbrev pub is_unknown : Option Text → Bool
is_unknown o = has_status (codes "unknown") o || not (truthy o)

abbrev pub count_apps : (Option Text → Bool) → List Webapp → ℕ
count_apps q apps = length (filter (λ a. q a.status) apps)

-- The response times that are not null.
abbrev pub response_times : List Webapp → List ℕ
response_times [] = []
response_times (a ∷ apps) = elim a.response_time_ms [
  | none ↦ response_times apps
  | some n ↦ n ∷ response_times apps
]

abbrev pub sum : List ℕ → ℕ
sum [] = 0
sum (n ∷ ns) = n + sum ns

-- `Math.round(sum / length)`, which rounds a half up
abbrev pub rounded_mean : List ℕ → Option ℕ
rounded_mean [] = none
rounded_mean (n ∷ ns) = let len = length (n ∷ ns) in some ((2 * sum (n ∷ ns) + len) / (2 * len))

unfoldable pub render_web_app_stats : List Webapp → WebappStats
render_web_app_stats apps = record {
  total = length apps;
  up = count_apps (has_status (codes "up")) apps;
  down = count_apps (has_status (codes "down")) apps;
  slow = count_apps (has_status (codes "slow")) apps;
  unknown = count_apps is_unknown apps;
  average = rounded_mean (response_times apps);
}

-- The statuses that the server gives to a web app.
pub data IsKnown : Option Text → Type 0 where
  no_status : IsKnown none
  empty_status : IsKnown (some [])
  up_status : IsKnown (some (codes "up"))
  down_status : IsKnown (some (codes "down"))
  slow_status : IsKnown (some (codes "slow"))
  unknown_status : IsKnown (some (codes "unknown"))

abbrev one_if : Bool → ℕ
one_if b = if b then 1 else 0

one_count :
    (o : Option Text)
    → IsKnown o
    → one_if (has_status (codes "up") o)
        + one_if (has_status (codes "down") o)
        + one_if (has_status (codes "slow") o)
        + one_if (is_unknown o)
      ≡ 1
one_count _ no_status = refl
one_count _ empty_status = refl
one_count _ up_status = refl
one_count _ down_status = refl
one_count _ slow_status = refl
one_count _ unknown_status = refl

count_apps-cons :
    (q : Option Text → Bool) (a : Webapp) (apps : List Webapp)
    → count_apps q (a ∷ apps) ≡ one_if (q a.status) + count_apps q apps
count_apps-cons q a apps = ground arith

-- If every status is one that the server gives, each web app is counted on exactly one chip beside
-- that of all: the four counts add up to the number of web apps.
pub render_web_app_stats_lem :
    (apps : List Webapp)
    → All (λ a. IsKnown a.status) apps
    → (render_web_app_stats apps).up
        + (render_web_app_stats apps).down
        + (render_web_app_stats apps).slow
        + (render_web_app_stats apps).unknown
      ≡ (render_web_app_stats apps).total
unfolding render_web_app_stats
render_web_app_stats_lem [] k = omega arith
render_web_app_stats_lem (a ∷ apps) (k, ks) = omega (
  arith,
  one_count a.status k,
  count_apps-cons (has_status (codes "up")) a apps,
  count_apps-cons (has_status (codes "down")) a apps,
  count_apps-cons (has_status (codes "slow")) a apps,
  count_apps-cons is_unknown a apps,
  render_web_app_stats_lem apps ks,
)
