-- ===== src/Dns/Laws.antt =====
-- What the list of DNS checks shows.
use domain_ssl_checker.Base.{List, length, ◌≡◌, refl}
use domain_ssl_checker.Dns.{receive_checks, set_dns_filter, DnsCheck, DnsState}

-- The rows that a filter shows are as many as the chip of that filter counts.
pub receive_checks_lem :
    (cs : List DnsCheck) (s : DnsState)
    → (length (receive_checks cs (set_dns_filter "up" s)).1.rows
        ≡ (receive_checks cs (set_dns_filter "up" s)).1.up_count)
      × (length (receive_checks cs (set_dns_filter "down" s)).1.rows
          ≡ (receive_checks cs (set_dns_filter "down" s)).1.down_count)
      × (length (receive_checks cs (set_dns_filter "all" s)).1.rows
          ≡ (receive_checks cs (set_dns_filter "all" s)).1.all_count)
unfolding receive_checks set_dns_filter
receive_checks_lem cs s = (refl, refl, refl)
