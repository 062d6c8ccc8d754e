-- ===== src/Forms/PortForm/Laws.antt =====
-- A port check that is edited and saved as it was, and the ports that can be sent at all.
use domain_ssl_checker.Forms.PortForm.{
  PortEntry, PortBody, PortFormEffect, put_port, post_port, submit_port, port_body, open_port_modal,
  PortForm, is_zero,
}
use domain_ssl_checker.Forms.Numbers.{num_or, is_blank, parse_int, int_or}
use domain_ssl_checker.Base.{
  List, pos, Option, some, Text, text_or, none, [], ◌∷◌, not, Bool, trim, ◌≡◌, false, ◌||◌, ◌==◌, ℤ,
  arith, suc, Bool-cases, negsuc, inl, refl, zero, inr,
}
use domain_ssl_checker.Digits.{show}
use domain_ssl_checker.Forms.Numbers.Laws.{num_or-pos, int_or-show, is_blank-show, int_or-num_or}

abbrev pub port_requests : List PortFormEffect → List (Option Text × PortBody)
port_requests [] = []
port_requests (put_port id b ∷ es) = (some id, b) ∷ port_requests es
port_requests (post_port b ∷ es) = (none, b) ∷ port_requests es
port_requests (e ∷ es) = port_requests es

-- The entries of the check that the form shows.
abbrev pub port_entry_body : PortEntry → PortBody
port_entry_body c = record {
  name = c.name;
  hostname = c.hostname;
  port = pos (num_or (some c.port) 443);
  check_interval = pos (num_or c.check_interval 300);
  timeout = pos (num_or c.timeout 10);
  use_ipv6 = c.use_ipv6;
  notes = text_or c.notes [];
  tags = text_or c.tags [];
  notify_on_down = not c.down_is_false;
  notify_on_recovery = not c.recovery_is_false;
}

-- A port check with a name and a host name whose texts have no white space at their ends, opened for an
-- edit and saved as it is, is sent once, under its id, with what it had; a port, an interval or a timeout
-- that is null or 0 is sent as 443, 300 or 10.
pub submit_port-edit :
    (ok : Bool) (c : PortEntry)
    → trim c.name ≡ c.name
    → trim c.hostname ≡ c.hostname
    → trim (text_or c.notes []) ≡ text_or c.notes []
    → trim (text_or c.tags []) ≡ text_or c.tags []
    → (is_blank c.name || is_blank c.hostname) ≡ false
    → port_requests (submit_port ok (open_port_modal (some c)))
      ≡ (some (show c.id), port_entry_body c) ∷ []
unfolding submit_port open_port_modal port_body
submit_port-edit ok c n h o t full =
    let not_zero : (num_or (some c.port) 443 == 0) ≡ false =
      ground (arith, num_or-pos (some c.port) 443) in
    elim (Bool-cases ok) [
      | inl yes_ok ↦
          rw
            (
              n,
              h,
              full,
              int_or-show c.port 443,
              not_zero,
              is_blank-show c.id,
              int_or-num_or c.check_interval 300 (omega arith),
              int_or-num_or c.timeout 10 (omega arith),
              o,
              t,
              yes_ok,
            )
            refl
      | inr no_ok ↦
          rw
            (
              n,
              h,
              full,
              int_or-show c.port 443,
              not_zero,
              is_blank-show c.id,
              int_or-num_or c.check_interval 300 (omega arith),
              int_or-num_or c.timeout 10 (omega arith),
              o,
              t,
              no_ok,
            )
            refl
    ]

never_zero : (n : Option ℤ) → is_zero (int_or n 443) ≡ false
never_zero none = refl
never_zero (some (pos zero)) = refl
never_zero (some (pos (suc n))) = ground arith
never_zero (some (negsuc n)) = refl

-- No port is missing: the fallback of a blank, unreadable or zero port passes the guard.
port-ne-zero : (f : PortForm) → is_zero (port_body f).port ≡ false
unfolding port_body
port-ne-zero f = never_zero (parse_int f.port)
