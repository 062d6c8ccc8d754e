-- ===== src/Logs/Tests.antt =====
-- The theorems on the logs at a page beyond the last one.
use domain_ssl_checker.Logs.{LogState}
use domain_ssl_checker.Base.{codes, [], false}

abbrev on_page_five : LogState
on_page_five = record {
  page = 5;
  limit = 10;
  total = 48;
  type = codes "all";
  query = [];
  from_date = [];
  to_date = [];
  exclude = false;
}
