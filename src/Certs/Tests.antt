-- ===== src/Certs/Tests.antt =====
-- The theorem on serial numbers, at one of five digits.
use domain_ssl_checker.Certs.Pairs.{in_pairs, serial_text, is_hex}
use domain_ssl_checker.Certs.Pairs.Laws.{not_colon, serial_text_lem}
use domain_ssl_checker.Base.{codes, some, ◌≡◌, refl, filter, join, arith}

serial_text_example :
    let pairs = join (codes ":") (in_pairs (codes "04AB7")) in
    (serial_text (λ t. t) (codes "04AB7") ≡ some pairs) × (filter not_colon pairs ≡ codes "04AB")
unfolding is_hex
serial_text_example = serial_text_lem (λ t. t) (codes "04AB7") refl (omega arith)
