-- ===== src/Manual/Tests.antt =====
-- The theorem on the manual checks, at two clicks on one row and an answer.
use domain_ssl_checker.Manual.{ManualState, manual_check, no_checks}
use domain_ssl_checker.Base.{[]}

abbrev clicked_twice : ManualState
clicked_twice = manual_check "domains" [] 4 (manual_check "domains" [] 4 no_checks)
