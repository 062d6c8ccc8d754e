-- ===== src/Dashboard/Cache.antt =====
-- The summary that the dashboard keeps for half a minute, and the theme: `loadDashboard`,
-- `toggleTheme` and `initTheme`.
use domain_ssl_checker.Login.{load_theme, toggle_theme}
use domain_ssl_checker.Base.{
  Option, Bool, ℕ, String, ◌≡◌, if◌then◌else◌, List, ◌<◌, not, false, ◌&&◌, some, ◌+◌, true, ltb,
  ◌∷◌, str_eq, refl, ◌-◌, [], none, arith,
}

-- `_dashSummaryCache`
pub record DashCache (D : Type 0) : Type 0 where
  pub kept : Option D
  pub ts : ℕ

pub data DashEffect (D : Type 0) : Type 0 where
  -- `GET /api/dashboard/summary`, and those of the scheduler and of the system
  asked_summary asked_status : DashEffect D
  -- `renderDashboardSummary` and `renderSystemInfo`
  rendered : D → DashEffect D
  -- `updateLastRefreshed` and `applyCollapseStates`
  refreshed : DashEffect D
  -- The toast of an error; an error that nothing catches
  failed uncaught : DashEffect D

module _ {D : Type 0} where
  -- The summary that is young enough.
  abbrev pub young : Bool → ℕ → DashCache D → Option D
  young force now c = if not force && ltb (now - c.ts) 30000 then c.kept else none

  abbrev pub load_with :
      Option D → Option D → Bool → ℕ → DashCache D → DashCache D × List (DashEffect D)
  load_with (some d) answer status_ok now c =
      (c, asked_status ∷ (if status_ok then rendered d else uncaught) ∷ [])
  load_with none none status_ok now c = (c, asked_summary ∷ asked_status ∷ failed ∷ [])
  load_with none (some d) status_ok now c =
      if status_ok
      then (
        record { kept = some d; ts = now },
        asked_summary ∷ asked_status ∷ rendered d ∷ refreshed ∷ [],
      )
      else (c, asked_summary ∷ asked_status ∷ failed ∷ [])

  -- `loadDashboard`: `answer` is the summary that the server sends, if it does, and `status_ok` says
  -- that the two other requests succeed.
  unfoldable pub load_dashboard :
      Bool → ℕ → Option D → Bool → DashCache D → DashCache D × List (DashEffect D)
  load_dashboard force now answer status_ok c = load_with (young force now c) answer status_ok now c

  -- A second load within half a minute shows the summary of the first and asks for none.
  load_dashboard_again :
      (d : D) (later : Option D) (now passed : ℕ) (c : DashCache D)
      → passed < 30000
      → (load_dashboard false
          (now + passed)
          later
          true
          (load_dashboard true now (some d) true c).0).1
        ≡ asked_status ∷ rendered d ∷ []
  unfolding load_dashboard
  load_dashboard_again d later now passed c h = rw (young_again now passed h) refl
    where
      young_again : (n k : ℕ) → k < 30000 → ltb ((n + k) - n) 30000 ≡ true
      young_again n k h = ground arith

-- `toggleTheme` and `initTheme` do what the login page does, on the same item of the storage.
unfoldable pub toggle_page_theme : Bool → Bool × Option String
toggle_page_theme light = (not light, some (if not light then "light" else "dark"))

unfoldable pub init_theme : Option String → Bool
init_theme none = false
init_theme (some t) = str_eq t "light"

-- A theme chosen on one of the two pages is the one that both load.
themes_agree :
    (light : Bool)
    → (load_theme (toggle_page_theme light).1 ≡ not light)
      × (init_theme (toggle_theme light).1 ≡ not light)
      × (init_theme (toggle_page_theme light).1 ≡ not light)
unfolding load_theme toggle_page_theme init_theme toggle_theme
themes_agree true = (refl, refl, refl)
themes_agree false = (refl, refl, refl)
