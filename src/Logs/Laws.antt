-- ===== src/Logs/Laws.antt =====
-- The pages of the logs.
use domain_ssl_checker.Logs.{
  LogEvent, on_log_event, LogState, log_request, jumped_to, chose_type, typed_query, LogRequest,
  chose_from, chose_to, chose_limit, pressed_prev, cleared_dates, pressed_next, toggled_exclude,
  jump_page,
}
use domain_ssl_checker.Base.{
  Bool, false, ◌≤◌, ◌≡◌, arith, true, some, ◌==◌, refl, Option, ℤ, negsuc, none, not, ◌||◌,
}
use domain_ssl_checker.Domains.Pages.Laws.{page_count-pos}

-- The events that change what is searched for.
abbrev pub is_search : LogEvent → Bool
is_search pressed_prev = false
is_search pressed_next = false
is_search (jumped_to o) = false
is_search (chose_type t) = true
is_search (typed_query t) = true
is_search (chose_from t) = true
is_search (chose_to t) = true
is_search (chose_limit n) = true
is_search cleared_dates = true
is_search toggled_exclude = true

abbrev pub asks_from_first : Option LogRequest → Bool
asks_from_first none = false
asks_from_first (some r) = r.offset == 0

jump_page-pos : (o : Option ℤ) (s : LogState) → 1 ≤ jump_page o s
jump_page-pos none s = omega (arith, page_count-pos s.total s.limit)
jump_page-pos (some (negsuc n)) s = omega (arith, page_count-pos s.total s.limit)
jump_page-pos (some (ℤ.pos n)) s = omega (arith, page_count-pos s.total s.limit)

-- From page 1 or above, every event leaves a page from 1 on. An event that changes the search, the
-- type, the dates or the limit asks the server for the logs from the first one on.
pub on_log_event_lem :
    (e : LogEvent) (s : LogState)
    → 1 ≤ s.page
    → (1 ≤ (on_log_event e s).0.page)
      × ((not (is_search e) || asks_from_first (on_log_event e s).1) ≡ true)
unfolding on_log_event log_request
on_log_event_lem (chose_type t) s h = (omega arith, ground arith)
on_log_event_lem (typed_query t) s h = (omega arith, ground arith)
on_log_event_lem (chose_from t) s h = (omega arith, ground arith)
on_log_event_lem (chose_to t) s h = (omega arith, ground arith)
on_log_event_lem (chose_limit n) s h = (omega arith, ground arith)
on_log_event_lem cleared_dates s h = (omega arith, ground arith)
on_log_event_lem toggled_exclude s h = (omega arith, ground arith)
on_log_event_lem pressed_prev s h = (ground arith, refl)
on_log_event_lem pressed_next s h = (omega arith, refl)
on_log_event_lem (jumped_to o) s h = (ground (arith, jump_page-pos o s), refl)
