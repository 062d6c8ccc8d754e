-- ===== src/Forms/PortForm.antt =====
-- The dialog and the form of a port check: `openPortModal`, `closePortModal` and `port-form`.
pub mod Laws
use domain_ssl_checker.Digits.{show}
use domain_ssl_checker.Forms.Numbers.{num_or, int_or, parse_int, is_blank}
use domain_ssl_checker.Base.{
  ℕ, Text, Option, trim, ℤ, Bool, [], pos, List, codes, ◌==◌, if◌then◌else◌, false, negsuc, ◌||◌,
  true, ◌∷◌, some, text_or, not, none,
}

-- What the dialog reads of a row of `/api/port-checks`; the two flags say that the entry is `false`.
pub record PortEntry : Type 0 where
  pub id : ℕ
  pub name : Text
  pub hostname : Text
  pub port : ℕ
  pub check_interval : Option ℕ
  pub timeout : Option ℕ
  pub use_ipv6 : Bool
  pub notes : Option Text
  pub tags : Option Text
  pub down_is_false : Bool
  pub recovery_is_false : Bool

pub record PortForm : Type 0 where
  pub id : Text
  pub name : Text
  pub hostname : Text
  pub port : Text
  pub check_interval : Text
  pub timeout : Text
  pub use_ipv6 : Bool
  pub notes : Text
  pub tags : Text
  pub notify_down : Bool
  pub notify_recovery : Bool

-- The body of the request.
pub record PortBody : Type 0 where
  pub name : Text
  pub hostname : Text
  pub port : ℤ
  pub check_interval : ℤ
  pub timeout : ℤ
  pub use_ipv6 : Bool
  pub notes : Text
  pub tags : Text
  pub notify_on_down : Bool
  pub notify_on_recovery : Bool

pub data PortFormEffect : Type 0 where
  -- "Name, hostname, and port are required"
  fields_required : PortFormEffect
  put_port : Text → PortBody → PortFormEffect
  post_port : PortBody → PortFormEffect
  dialog_closed ports_reloaded port_updated port_added save_failed : PortFormEffect

unfoldable pub open_port_modal : Option PortEntry → PortForm
open_port_modal none = record {
  id = [];
  name = [];
  hostname = [];
  port = codes "443";
  check_interval = codes "300";
  timeout = codes "10";
  use_ipv6 = false;
  notes = [];
  tags = [];
  notify_down = true;
  notify_recovery = true;
}
open_port_modal (some c) = record {
  id = show c.id;
  name = c.name;
  hostname = c.hostname;
  port = show c.port;
  check_interval = show (num_or c.check_interval 300);
  timeout = show (num_or c.timeout 10);
  use_ipv6 = c.use_ipv6;
  notes = text_or c.notes [];
  tags = text_or c.tags [];
  notify_down = not c.down_is_false;
  notify_recovery = not c.recovery_is_false;
}

unfoldable pub port_body : PortForm → PortBody
port_body f = record {
  name = trim f.name;
  hostname = trim f.hostname;
  port = int_or (parse_int f.port) 443;
  check_interval = int_or (parse_int f.check_interval) 300;
  timeout = int_or (parse_int f.timeout) 10;
  use_ipv6 = f.use_ipv6;
  notes = trim f.notes;
  tags = trim f.tags;
  notify_on_down = f.notify_down;
  notify_on_recovery = f.notify_recovery;
}

-- `!data.port`
abbrev pub is_zero : ℤ → Bool
is_zero (pos n) = n == 0
is_zero (negsuc n) = false

unfoldable pub submit_port : Bool → PortForm → List PortFormEffect
submit_port ok f =
    let body = port_body f in
    if is_blank body.name || is_blank body.hostname || is_zero body.port
    then fields_required ∷ []
    else (if is_blank f.id then post_port body else put_port f.id body)
      ∷ (if ok
          then dialog_closed
            ∷ ports_reloaded
            ∷ (if is_blank f.id then port_added else port_updated)
            ∷ []
          else save_failed ∷ [])
