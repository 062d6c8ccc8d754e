-- ===== src/Manual.antt =====
-- The checks that a click starts: `manualCheck` of one row, `checkAll`, and `quickCheck`. A call is
-- cut at its `await`; `waiting` has the requests that have no answer yet.
pub mod Laws
mod Tests
use domain_ssl_checker.Domains.{ListType, full, ssl_only, Domain}
use domain_ssl_checker.Checks.{remember, same_type}
use domain_ssl_checker.Selection.{has, add, delete}
use domain_ssl_checker.Base.{
  ℕ, List, String, Bool, if◌then◌else◌, [], Option, str_eq, ◌++◌, ◌∷◌, true, false, find?, ◌==◌,
  none,
}

pub data CheckEffect : Type 0 where
  -- `POST /api/domains/id/check` and `POST /api/check-all`
  sent_check : ℕ → CheckEffect
  sent_check_all : CheckEffect
  -- "Check complete", "Check all complete", and the toast of an error
  check_complete all_complete check_failed : CheckEffect
  -- "Checking all...", and the progress bar at 0, at 100, and hidden
  checking_toast progress_started progress_full progress_hidden : CheckEffect
  -- `clearDomainsCache(type); loadDomains(type);`
  list_reloaded : ListType → CheckEffect
  dashboard_loaded : CheckEffect

pub record ManualState : Type 0 where
  -- `checkingDomains`
  pub checking : List ℕ
  -- `checkingAll[type]`
  pub checking_all : ListType → Bool
  pub waiting : List ℕ
  pub waiting_all : ListType → Bool
  -- `_prevStatuses[type][id]`
  pub previous : ListType → ℕ → Option (Option String)
  pub effects : List CheckEffect

-- `activeView === 'sslcerts' ? 'ssl_only' : 'full'`
abbrev pub type_of_view : String → ListType
type_of_view view = if str_eq view "sslcerts" then ssl_only else full

-- What is loaded again after a check.
abbrev pub reload : String → CheckEffect
reload view =
    if str_eq view "domains"
    then list_reloaded full
    else if str_eq view "sslcerts"
    then list_reloaded ssl_only
    else dashboard_loaded

-- `manualCheck` up to its request; `cached` is `_cachedDomains` of the list of the view.
unfoldable pub manual_check : String → List Domain → ℕ → ManualState → ManualState
manual_check view cached id s = if has id s.checking then s else record s {
  checking = add id s.checking;
  waiting = s.waiting ++ id ∷ [];
  previous = remember (type_of_view view) id (find? (λ d. d.id == id) cached) s.previous;
  effects = s.effects ++ sent_check id ∷ [];
}

-- The first of the requests for `id` is no longer waited for.
abbrev pub take_out : ℕ → List ℕ → List ℕ
take_out id [] = []
take_out id (x ∷ xs) = let rest = take_out id xs in if x == id then xs else x ∷ rest

-- The rest of `manualCheck`, with the view of that moment; `ok` says that the check succeeds.
unfoldable pub answer_check : Bool → String → ℕ → ManualState → ManualState
answer_check ok view id s = record s {
  checking = delete id s.checking;
  waiting = take_out id s.waiting;
  effects = s.effects ++ (if ok then check_complete ∷ reload view ∷ [] else check_failed ∷ []);
}

abbrev pub set_type : ListType → Bool → (ListType → Bool) → ListType → Bool
set_type type b f t = if same_type t type then b else f t

-- `checkAll` up to its request
unfoldable pub check_all : ListType → ManualState → ManualState
check_all type s = if s.checking_all type then s else record s {
  checking_all = set_type type true s.checking_all;
  waiting_all = set_type type true s.waiting_all;
  effects = s.effects ++ progress_started ∷ checking_toast ∷ sent_check_all ∷ [];
}

-- The rest of `checkAll`
unfoldable pub answer_all : Bool → String → ListType → ManualState → ManualState
answer_all ok view type s = record s {
  checking_all = set_type type false s.checking_all;
  waiting_all = set_type type false s.waiting_all;
  effects =
      s.effects
      ++ (if ok
          then progress_full ∷ all_complete ∷ reload view ∷ []
          else progress_hidden ∷ check_failed ∷ []);
}

-- `quickCheck`, with its answer
unfoldable pub quick_check : Bool → ℕ → List CheckEffect
quick_check ok id =
    sent_check id ∷ (if ok then check_complete ∷ dashboard_loaded ∷ [] else check_failed ∷ [])

-- The page after it was loaded.
abbrev pub no_checks : ManualState
no_checks = record {
  checking = [];
  checking_all = λ type. false;
  waiting = [];
  waiting_all = λ type. false;
  previous = λ type id. none;
  effects = [];
}
