-- ===== src/Dns.antt =====
-- The list of DNS checks: `loadDnsChecks` with its filter, `openDnsModal`, `dns-form`,
-- `checkSingleDns`, `checkAllDns` and `toggleDnsView`.
pub mod Laws
use domain_ssl_checker.Digits.{show}
use domain_ssl_checker.Forms.Numbers.{parse_int, int_or, is_blank, or_null}
use domain_ssl_checker.Base.{
  filter, ℕ, List, String, not, Text, Option, Bool, if◌then◌else◌, false, length, some, [], ◌∷◌,
  str_eq, true, ◌&&◌, ◌==◌, codes, map, none, text_or, ◌++◌, ℤ, trim, ◌||◌,
}

-- A row of `/api/dns-checks`; the two flags say that the entry is `false`.
pub record DnsCheck : Type 0 where
  pub id : ℕ
  pub name : Text
  pub hostname : Text
  pub status : Option String
  pub record_type : Option Text
  pub expected_value : Option Text
  pub check_interval : Option ℕ
  pub notes : Option Text
  pub down_is_false : Bool
  pub recovery_is_false : Bool

pub record DnsState : Type 0 where
  -- `_dnsCache`
  pub cached : List DnsCheck
  -- `_dnsFilter`
  pub filter : String
  -- `_dnsViewMode` is "cards".
  pub cards : Bool

-- What `loadDnsChecks` writes: the rows, the three counts, and which of the two views is shown.
pub record DnsShown : Type 0 where
  pub rows : List DnsCheck
  pub all_count : ℕ
  pub up_count : ℕ
  pub down_count : ℕ
  pub table_visible : Bool

-- `c.status === s`
abbrev pub status_equals : String → DnsCheck → Bool
status_equals s c = elim c.status [ none ↦ false | some t ↦ str_eq t s ]

abbrev pub shown_checks : String → List DnsCheck → List DnsCheck
shown_checks f cs = if str_eq f "all" then cs else filter (status_equals f) cs

abbrev pub any_rows : List DnsCheck → Bool
any_rows [] = false
any_rows (c ∷ cs) = true

-- The answer of the server arrives.
unfoldable pub receive_checks : List DnsCheck → DnsState → DnsState × DnsShown
receive_checks cs s =
    let rows = shown_checks s.filter cs in
    (
      record s { cached = cs },
      record {
        rows = rows;
        all_count = length cs;
        up_count = length (filter (status_equals "up") cs);
        down_count = length (filter (status_equals "down") cs);
        table_visible = any_rows rows && not s.cards;
      },
    )

-- `toggleDnsView` and `set-dns-filter`, before the list is loaded again
unfoldable pub toggle_dns_view : DnsState → DnsState
toggle_dns_view s = record s { cards = not s.cards }

unfoldable pub set_dns_filter : String → DnsState → DnsState
set_dns_filter f s = record s { filter = f }

pub record DnsForm : Type 0 where
  pub id : Text
  pub name : Text
  pub hostname : Text
  pub record_type : Text
  pub expected : Text
  pub interval : Text
  pub notes : Text
  pub notify_down : Bool
  pub notify_recovery : Bool

abbrev pub interval_or : Option ℕ → ℕ
interval_or none = 300
interval_or (some n) = if n == 0 then 300 else n

-- `openDnsModal`
unfoldable pub open_dns_modal : Option DnsCheck → DnsForm
open_dns_modal none = record {
  id = [];
  name = [];
  hostname = [];
  record_type = codes "A";
  expected = [];
  interval = codes "300";
  notes = [];
  notify_down = true;
  notify_recovery = true;
}
open_dns_modal (some c) = record {
  id = show c.id;
  name = c.name;
  hostname = c.hostname;
  record_type = text_or c.record_type (codes "A");
  expected = text_or c.expected_value [];
  interval = show (interval_or c.check_interval);
  notes = text_or c.notes [];
  notify_down = not c.down_is_false;
  notify_recovery = not c.recovery_is_false;
}

-- The body of the request.
pub record DnsBody : Type 0 where
  pub name : Text
  pub hostname : Text
  pub record_type : Text
  pub expected_value : Option Text
  pub check_interval : ℤ
  pub notes : Text
  pub notify_on_down : Bool
  pub notify_on_recovery : Bool

unfoldable pub dns_body : DnsForm → DnsBody
dns_body f = record {
  name = trim f.name;
  hostname = trim f.hostname;
  record_type = f.record_type;
  expected_value = or_null (trim f.expected);
  check_interval = int_or (parse_int f.interval) 300;
  notes = trim f.notes;
  notify_on_down = f.notify_down;
  notify_on_recovery = f.notify_recovery;
}

pub data DnsEffect : Type 0 where
  -- `POST /api/dns-checks/id/check`
  sent_check : ℕ → DnsEffect
  -- "DNS check completed", "All DNS checks completed"
  check_completed all_completed : DnsEffect
  check_failed : DnsEffect
  list_reloaded : DnsEffect
  -- "Name and hostname are required"
  name_and_hostname_required : DnsEffect
  put_dns : Text → DnsBody → DnsEffect
  post_dns : DnsBody → DnsEffect
  dialog_closed dns_updated dns_added save_failed : DnsEffect
  sent_delete : ℕ → DnsEffect
  dns_deleted : DnsEffect

-- `checkSingleDns`
unfoldable pub check_single : Bool → ℕ → List DnsEffect
check_single ok id =
    sent_check id ∷ (if ok then check_completed ∷ list_reloaded ∷ [] else check_failed ∷ [])

-- `checkAllDns`; a check that fails changes nothing of what follows.
unfoldable pub check_all_dns : List DnsCheck → List DnsEffect
check_all_dns [] = []
check_all_dns (c ∷ cs) = map (λ d. sent_check d.id) (c ∷ cs) ++ all_completed ∷ list_reloaded ∷ []

-- `dns-form`
unfoldable pub submit_dns : Bool → DnsForm → List DnsEffect
submit_dns ok f =
    let body = dns_body f in
    if is_blank (trim f.name) || is_blank (trim f.hostname)
    then name_and_hostname_required ∷ []
    else (if is_blank f.id then post_dns body else put_dns f.id body)
      ∷ (if ok
          then dialog_closed
            ∷ list_reloaded
            ∷ (if is_blank f.id then dns_added else dns_updated)
            ∷ []
          else save_failed ∷ [])

-- `delete-dns-check`, after the question
unfoldable pub delete_dns : Bool → Bool → ℕ → List DnsEffect
delete_dns confirmed ok id =
    if not confirmed
    then []
    else sent_delete id ∷ (if ok then dns_deleted ∷ list_reloaded ∷ [] else save_failed ∷ [])
