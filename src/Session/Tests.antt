-- ===== src/Session/Tests.antt =====
-- The theorem on the browser's storage, with a storage that keeps values as they are.
use Prim.Native.Nat.{compare}
use domain_ssl_checker.Session.{Prefs, Json, Items, View, Entry, load_view_prefs, apply_and_save}
use domain_ssl_checker.Base.{Option, some, true, length, none, refl, [], ◌≡◌, codes, arith}
use domain_ssl_checker.Session.Laws.{IsJson, kept}
use domain_ssl_checker.Platform.{Platform}
use domain_ssl_checker.Domains.{full, desc}
use domain_ssl_checker.Domains.Pages.{with_page}
use domain_ssl_checker.Domains.Pages.Laws.{page_in_range}
use domain_ssl_checker.Session.Reload.{load-apply_and_save}

data Stored : Type 0 where
  prefs : Prefs → Stored
  entry : Entry → Stored

abbrev read_prefs : Stored → Option Prefs
read_prefs (prefs q) = some q
read_prefs (entry e) = none

abbrev read_entry : Stored → Option Entry
read_entry (prefs q) = none
read_entry (entry e) = some e

abbrev json : Json Stored
json = record {
  stringify_prefs = prefs;
  parse_prefs = read_prefs;
  stringify_entry = entry;
  parse_entry = read_entry;
  accepts = λ raw. true;
}

json-IsJson : IsJson json
json-IsJson = record { parse-stringify_prefs = λ q. refl; parse-stringify_entry = λ e. refl }

abbrev browser : Platform
browser = record {
  lower = λ t. t;
  locale_compare = λ a b. compare (length a) (length b);
  time_of = length;
  midnight_of = length;
  now = 59000;
}

abbrev nothing_stored : Items Stored
nothing_stored = record { of_full = none; of_ssl_only = none }

abbrev some_view : View
some_view = record {
  view_mode = "table";
  group_by = true;
  cols = [];
  list = record {
    cached = [];
    search = [];
    chip = "expired";
    tld = codes "example.com";
    sort = record { field = "days"; dir = desc };
    pagination = record { page = 1; page_size = 50 };
  };
}

load-apply_and_save_example :
    (prefs' : Items Stored) × ((apply_and_save json browser full some_view nothing_stored).1
      ≡ some prefs')
    × ((apply_and_save json browser full some_view nothing_stored).0 ≡ record some_view {
      list = with_page (page_in_range browser full some_view.list) some_view.list;
    })
    × (load_view_prefs json full prefs' some_view ≡ kept some_view some_view)
load-apply_and_save_example =
    load-apply_and_save json json-IsJson browser full some_view some_view nothing_stored (λ q. refl)
      refl refl (omega arith)
