-- ===== src/Password/Tests.antt =====
-- The live test at a password with a special character that it does not know.
use domain_ssl_checker.Password.Laws.{is_empty, validate_pw_test_input_lem}
use domain_ssl_checker.Password.{
  Policy, validate_pw_test_input, validate_password, is_in, test_specials,
}
use domain_ssl_checker.Base.{all, true, ◌∷◌, codes, ◌≡◌, ◌&&◌, not, ◌||◌, any}

abbrev strict : Policy
strict = record {
  min_length = 4;
  require_upper = true;
  require_lower = true;
  require_number = true;
  require_special = true;
}

validate_pw_test_input_example :
    all (λ b. b) (validate_pw_test_input strict (b'A' ∷ codes "bc1+")) ≡ (
      is_empty (validate_password strict (b'A' ∷ codes "bc1+"))
      && (not true || any (is_in test_specials) (b'A' ∷ codes "bc1+")))
validate_pw_test_input_example = validate_pw_test_input_lem strict b'A' (codes "bc1+")
