-- ===== src/Logs.antt =====
-- The log view: `logState`, the handlers that change it, the request of `refreshLogs`, and the
-- labels and buttons of `updateLogPagination`. The request of the search box is sent 250 ms after
-- the last key; it is the one given here if nothing else happens before.
pub mod Laws
mod Tests
use domain_ssl_checker.Paging.{page_count}
use domain_ssl_checker.Base.{
  ℕ, Text, ◌-◌, Option, if◌then◌else◌, Bool, none, ◌*◌, ℤ, some, ◌==◌, trim, ltb, ◌∷◌, text_or, min,
  [], ◌+◌, codes, negsuc, not, leb, pos, max,
}

-- `logState`
pub record LogState : Type 0 where
  pub page : ℕ
  pub limit : ℕ
  pub total : ℕ
  pub type : Text
  pub query : Text
  pub from_date : Text
  pub to_date : Text
  pub exclude : Bool

-- The parameters of `/api/logs`; `none` is one that is not set.
pub record LogRequest : Type 0 where
  pub limit : ℕ
  pub offset : ℕ
  pub type : Option Text
  pub exclude_type : Option Text
  pub query : Text
  pub from_date : Option Text
  pub to_date : Option Text

abbrev pub if_any : Text → Option Text
if_any [] = none
if_any (c ∷ cs) = some (c ∷ cs)

unfoldable pub log_request : LogState → LogRequest
log_request s = record {
  limit = s.limit;
  offset = (s.page - 1) * s.limit;
  type = if s.exclude then none else some (text_or (some s.type) (codes "all"));
  exclude_type = if s.exclude then some s.type else none;
  query = s.query;
  from_date = if_any s.from_date;
  to_date = if_any s.to_date;
}

abbrev pub log_pages : LogState → ℕ
log_pages s = page_count s.total s.limit

pub data LogEvent : Type 0 where
  chose_type typed_query chose_from chose_to : Text → LogEvent
  chose_limit : ℕ → LogEvent
  cleared_dates toggled_exclude pressed_prev pressed_next : LogEvent
  -- What `parseInt` reads in the jump box.
  jumped_to : Option ℤ → LogEvent

-- The page that the jump box asks for.
abbrev pub jump_page : Option ℤ → LogState → ℕ
jump_page none s = min 1 (log_pages s)
jump_page (some (negsuc n)) s = min 1 (log_pages s)
jump_page (some (pos n)) s = min (max 1 n) (log_pages s)

-- The new state, with the request if the logs are asked for again.
abbrev pub refreshed : LogState → LogState × Option LogRequest
refreshed s = (s, some (log_request s))

abbrev pub to_page : ℕ → LogState → LogState × Option LogRequest
to_page page s = if page == s.page then (s, none) else refreshed (record s { page = page })

unfoldable pub on_log_event : LogEvent → LogState → LogState × Option LogRequest
on_log_event (chose_type type) s = refreshed (record s { type = type; page = 1 })
on_log_event (typed_query text) s = refreshed (record s { query = trim text; page = 1 })
on_log_event (chose_from date) s = refreshed (record s { from_date = date; page = 1 })
on_log_event (chose_to date) s = refreshed (record s { to_date = date; page = 1 })
on_log_event (chose_limit limit) s = refreshed (record s { limit = limit; page = 1 })
on_log_event cleared_dates s = refreshed (record s { from_date = []; to_date = []; page = 1 })
on_log_event toggled_exclude s = refreshed (record s { exclude = not s.exclude; page = 1 })
on_log_event pressed_prev s =
    if leb s.page 1 then (s, none) else refreshed (record s { page = s.page - 1 })
on_log_event pressed_next s = refreshed (record s { page = s.page + 1 })
on_log_event (jumped_to o) s = to_page (jump_page o s) s

-- What `updateLogPagination` writes.
pub record LogBar : Type 0 where
  pub page : ℕ
  pub pages : ℕ
  pub from : ℕ
  pub to : ℕ
  pub prev_disabled : Bool
  pub next_disabled : Bool
  pub footer_visible : Bool

unfoldable pub update_log_pagination : LogState → LogState × LogBar
update_log_pagination s =
    let page' = if ltb (log_pages s) s.page then log_pages s else s.page in
    (
      record s { page = page' },
      record {
        page = page';
        pages = log_pages s;
        from = if s.total == 0 then 0 else (page' - 1) * s.limit + 1;
        to = min (page' * s.limit) s.total;
        prev_disabled = leb page' 1;
        next_disabled = leb (log_pages s) page';
        footer_visible = ltb s.limit s.total;
      },
    )

-- The answer of the server arrives, with the number of logs that match.
unfoldable pub receive_logs : ℕ → LogState → LogState × LogBar
receive_logs total s = update_log_pagination (record s { total = total })
