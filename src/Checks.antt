-- ===== src/Checks.antt =====
-- The rate-limited bulk check: `bulkAction(type, 'check')` and `processBulkCheckQueue`, whose loop
-- runs one request at a time. Between two of its steps the page handles other events.
pub mod Run
pub mod Reach
mod Tests
use domain_ssl_checker.Domains.{ListType, full, ssl_only, Domain, status_of}
use domain_ssl_checker.Base.{
  ℕ, List, ◌++◌, Bool, Option, String, ◌∷◌, true, some, false, if◌then◌else◌, [], ◌&&◌, find?, none,
  ◌||◌, ◌%◌, suc, not, ◌==◌, length, str_eq,
}

-- The local variables of a run that waits for the answer on `id`.
pub record Waiting : Type 0 where
  pub id : ℕ
  pub type : ListType
  pub total : ℕ
  -- `done` requests have been answered.
  pub answered : ℕ

-- What the page and the server see of it, in order.
pub data Effect : Type 0 where
  -- `toast("Checking n domains...")`
  announced : ℕ → Effect
  -- `POST /api/domains/id/check`
  posted : ℕ → Effect
  -- The progress bar at `done / total`.
  progress : ℕ → ℕ → Effect
  -- `toast("n checks complete")`
  completed : ℕ → Effect
  hidden_progress : Effect
  -- `clearDomainsCache(type); loadDomains(type);`
  reloaded : ListType → Effect
  -- "Admin access required"
  refused : Effect

pub record BulkState : Type 0 where
  -- `_bulkCheckQueue`
  pub queue : List ℕ
  -- `_bulkCheckRunning`
  pub running : Bool
  -- Where the run stands, if it is at its `await`.
  pub waiting : Option Waiting
  -- `_prevStatuses[type][id]`; the inner `none` is null.
  pub previous : ListType → ℕ → Option (Option String)
  pub effects : List Effect

abbrev pub emit : Effect → BulkState → BulkState
emit e s = record s { effects = s.effects ++ e ∷ [] }

abbrev pub same_type : ListType → ListType → Bool
same_type full full = true
same_type ssl_only ssl_only = true
same_type full ssl_only = false
same_type ssl_only full = false

-- `_prevStatuses[type][id] = d[sf]` where the cached row is found
abbrev pub remember :
    ListType
    → ℕ
    → Option Domain
    → (ListType → ℕ → Option (Option String))
    → ListType
    → ℕ
    → Option (Option String)
remember type id none previous = previous
remember type id (some d) previous =
    λ t i. if same_type t type && i == id then some (status_of type d) else previous t i

unfoldable pub save_previous :
    ListType
    → List Domain
    → List ℕ
    → (ListType → ℕ → Option (Option String))
    → ListType
    → ℕ
    → Option (Option String)
save_previous type cached [] previous = previous
save_previous type cached (id ∷ ids) previous =
    save_previous type cached ids (remember type id (find? (λ d. d.id == id) cached) previous)

-- After the loop.
unfoldable pub finish : ListType → ℕ → BulkState → BulkState
finish type total s = record s {
  running = false;
  waiting = none;
  effects = s.effects ++ completed total ∷ hidden_progress ∷ reloaded type ∷ [];
}

-- The head of the loop, to its `await` or to the end.
unfoldable pub take_next : ListType → ℕ → ℕ → List ℕ → BulkState → BulkState
take_next type total answered [] s = finish type total (record s { queue = [] })
take_next type total answered (id ∷ ids) s = record s {
  queue = ids;
  waiting = some (record { id = id; type = type; total = total; answered = answered });
  effects = s.effects ++ posted id ∷ [];
}

-- Before the loop.
unfoldable pub started : ListType → List Domain → BulkState → BulkState
started type cached s = record s {
  running = true;
  previous = save_previous type cached s.queue s.previous;
  effects = s.effects ++ announced (length s.queue) ∷ [];
}

-- `xs.length === 0`
abbrev pub is_nil : List ℕ → Bool
is_nil [] = true
is_nil (x ∷ xs) = false

-- `processBulkCheckQueue`, up to its first `await`.
unfoldable pub process_queue : ListType → List Domain → BulkState → BulkState
process_queue type cached s =
    if s.running || is_nil s.queue
    then s
    else take_next type (length s.queue) 0 s.queue (started type cached s)

-- The rest of a round, once the request is answered, be it with an error.
unfoldable pub progress_at : ℕ → ℕ → List Effect
progress_at answered total = if answered % 5 == 0 then progress answered total ∷ [] else []

abbrev pub resume : Option Waiting → BulkState → BulkState
resume none s = s
resume (some w) s =
    take_next w.type w.total (suc w.answered) s.queue
      (record s { effects = s.effects ++ progress_at (suc w.answered) w.total })

unfoldable pub answer : BulkState → BulkState
answer s = resume s.waiting s

-- `bulkAction(…, 'check')` with the ids of the selection; the selection is empty afterwards. The
-- type of the run is that of the open view, not that of the button.
unfoldable pub bulk_check : String → ListType → List Domain → List ℕ → BulkState → BulkState
bulk_check role view cached ids s =
    if not (str_eq role "admin")
    then emit refused s
    else if is_nil ids
    then s
    else process_queue view cached (record s { queue = ids })

-- The state when the page is loaded.
abbrev pub at_load : BulkState
at_load = record {
  queue = [];
  running = false;
  waiting = none;
  previous = λ type id. none;
  effects = [];
}
