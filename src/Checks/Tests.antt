-- ===== src/Checks/Tests.antt =====
-- The theorems on the bulk check at small queues.
use domain_ssl_checker.Checks.{BulkState, at_load, bulk_check, announced, posted}
use domain_ssl_checker.Checks.Run.{Ends, answers, IsIdle, bulk_check-Ends, bulk_check_drops_queue}
use domain_ssl_checker.Checks.Reach.{clicked, IsConsistent, answers-Reachable, loaded}
use domain_ssl_checker.Domains.{full, ssl_only}
use domain_ssl_checker.Base.{◌∷◌, [], true, some, suc, arith, length, refl}

-- The page has loaded, and an admin has checked the rows 1, 2 and 3.
abbrev three_queued : BulkState
three_queued = record at_load {
  queue = 2 ∷ 3 ∷ [];
  running = true;
  waiting = some (record { id = 1; type = full; total = 3; answered = 0 });
  effects = announced 3 ∷ posted 1 ∷ [];
}

bulk_check-Ends_example :
    Ends full (4 ∷ 5 ∷ []) at_load (answers 2 (bulk_check "admin" full [] (4 ∷ 5 ∷ []) at_load))
bulk_check-Ends_example = bulk_check-Ends full [] (4 ∷ 5 ∷ []) at_load refl (omega arith)

bulk_check_drops_queue_example :
    Ends full
      (9 ∷ [])
      three_queued
      (answers 2 (bulk_check "admin" ssl_only [] (9 ∷ []) three_queued))
bulk_check_drops_queue_example =
    bulk_check_drops_queue ssl_only [] (9 ∷ []) three_queued
      (record { id = 1; type = full; total = 3; answered = 0 }) refl refl (omega arith)

answers-Reachable_example :
    IsConsistent (bulk_check "admin" full [] (7 ∷ []) at_load)
    × IsIdle (
        answers
          (suc (length (bulk_check "admin" full [] (7 ∷ []) at_load).queue))
          (bulk_check "admin" full [] (7 ∷ []) at_load))
answers-Reachable_example =
    answers-Reachable (bulk_check "admin" full [] (7 ∷ []) at_load)
      (clicked "admin" full [] (7 ∷ []) at_load loaded)
