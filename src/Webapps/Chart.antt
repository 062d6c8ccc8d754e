-- ===== src/Webapps/Chart.antt =====
-- The chart of the details of a web app between two events: `openWebAppDetail` with the parts that the
-- chart needs, the buttons of the duration, and `loadWebappChart`, cut where it waits for its data. A
-- point of the data is its response time; a time that is null is left out.
pub mod Laws
mod Tests
use domain_ssl_checker.Webapps.Axis.{ChartStats, stats_of_times}
use domain_ssl_checker.Base.{
  ℕ, Bool, List, Option, none, ◌==◌, some, ◌∷◌, if◌then◌else◌, ◌&&◌, [], ◌||◌,
}

-- `cacheKey`: the web app and the hours
pub record ChartKey : Type 0 where
  pub webapp : ℕ
  pub hours : ℕ

abbrev pub same_key : ChartKey → ChartKey → Bool
same_key a b = a.webapp == b.webapp && a.hours == b.hours

pub data Chart : Type 0 where
  -- "Loading...", "Not enough data for this period", "Failed to load"
  loading not_enough failed : Chart
  -- The line through these times.
  line : List ℕ → Chart

pub record ChartState : Type 0 where
  -- `_detailWebappId` and `_detailChartHours`, which also marks the active button
  pub webapp : Option ℕ
  pub hours : ℕ
  -- `_detailChartCache`
  pub cached : List (ChartKey × List ℕ)
  -- The requests that wait for their answer.
  pub waiting : List ChartKey
  pub chart : Chart
  -- The four texts; `none` is the dashes.
  pub stats : Option ChartStats

abbrev pub cached_times : ChartKey → List (ChartKey × List ℕ) → Option (List ℕ)
cached_times k [] = none
cached_times k ((j, ts) ∷ cs) = if same_key j k then some ts else cached_times k cs

-- The callback of `dataPromise.then`, after the cache
unfoldable pub draw : List ℕ → ChartState → ChartState
draw ts s = elim (stats_of_times ts) [
  | none ↦ record s { chart = not_enough }
  | some st ↦ record s { chart = line ts; stats = some st }
]

abbrev pub cleared : ChartState → ChartState
cleared s = record s { chart = loading; stats = none }

abbrev pub load_key : ChartKey → ChartState → ChartState
load_key k s = elim (cached_times k s.cached) [
  | none ↦ record (cleared s) { waiting = k ∷ s.waiting }
  | some ts ↦ draw ts (cleared s)
]

-- `loadWebappChart`. Data of the cache is drawn before any other event.
unfoldable pub load_webapp_chart : ChartState → ChartState
load_webapp_chart s = elim s.webapp [
  | none ↦ s
  | some id ↦ load_key (record { webapp = id; hours = s.hours }) s
]

unfoldable pub open_chart : ℕ → ChartState → ChartState
open_chart id s = load_webapp_chart (record s { webapp = some id; cached = [] })

-- A click on a button of the duration, whose hours are not 0.
unfoldable pub choose_hours : ℕ → ChartState → ChartState
choose_hours h s = if h == 0 || s.hours == h then s else load_webapp_chart (record s { hours = h })

abbrev pub without_key : ChartKey → List ChartKey → List ChartKey
without_key k [] = []
without_key k (j ∷ js) = if same_key j k then js else j ∷ without_key k js

-- The answer to one of the requests, with data or with a failure.
unfoldable pub receive_chart : ChartKey → Option (List ℕ) → ChartState → ChartState
receive_chart k none s = record s { waiting = without_key k s.waiting; chart = failed }
receive_chart k (some ts) s =
    draw ts (record s { waiting = without_key k s.waiting; cached = (k, ts) ∷ s.cached })
