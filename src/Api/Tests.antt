-- ===== src/Api/Tests.antt =====
-- The theorem on calls, at a DELETE without a token and a GET that is refused.
use domain_ssl_checker.Api.{get, del, Response}
use domain_ssl_checker.Api.Run.{Input, run_calls, asked, IsCall, run_calls_lem}
use domain_ssl_checker.Base.{refl, codes, ℕ, List, All, some, true, false, none, ◌≤◌, ◌∷◌, []}

abbrev deleted : Response ℕ
deleted = record {
  new_token = some (codes "t2");
  status = 200;
  ok = true;
  error = none;
  contents = some 4;
}

abbrev two_calls : List (Input ℕ)
two_calls =
    record {
      method = del;
      path = codes "/api/domains/4";
      has_body = false;
      csrf = some (codes "t1");
      response = some deleted;
    }
    ∷ record {
      method = get;
      path = codes "/api/domains";
      has_body = false;
      csrf = some (codes "t1");
      response = some (record deleted { status = 401; ok = false });
    }
    ∷ []

run_calls_example :
    (asked (run_calls two_calls none) ≤ 1) × All (λ (i, c). IsCall i c) (run_calls two_calls none)
run_calls_example = run_calls_lem two_calls none (refl, (refl, tt))
