-- ===== src/Manual/Laws.antt =====
-- No row is checked twice at once.
use domain_ssl_checker.Base.{ℕ, ◌≡◌, String, List, Bool, true}
use domain_ssl_checker.Selection.Sets.{NoRepeats}
use domain_ssl_checker.Manual.{
  ManualState, manual_check, no_checks, answer_check, check_all, answer_all,
}
use domain_ssl_checker.Selection.{has}
use domain_ssl_checker.Domains.{ListType, Domain}

-- The clicks and the answers, in any order; an answer comes only to a request that waits.
pub data Reachable : ManualState → Type 0 where
  loaded : Reachable no_checks
  checked :
      (view : String) (cached : List Domain) (id : ℕ) (s : ManualState)
      → Reachable s
      → Reachable (manual_check view cached id s)
  answered :
      (ok : Bool) (view : String) (id : ℕ) (s : ManualState)
      → has id s.waiting ≡ true
      → Reachable s
      → Reachable (answer_check ok view id s)
  all_checked : (type : ListType) (s : ManualState) → Reachable s → Reachable (check_all type s)
  all_answered :
      (ok : Bool) (view : String) (type : ListType) (s : ManualState)
      → s.waiting_all type ≡ true
      → Reachable s
      → Reachable (answer_all ok view type s)

-- The sets of the page are those of the requests that wait.
pub record IsExact (s : ManualState) : Type 0 where
  pub rows : s.waiting ≡ s.checking
  pub once : NoRepeats s.waiting
  pub lists : (type : ListType) → s.waiting_all type ≡ s.checking_all type
