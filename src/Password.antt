-- ===== src/Password.antt =====
-- The password policy: `validatePassword` and the live test of the settings page,
-- `validatePwTestInput`.
pub mod Laws
pub mod Strength
mod Tests
use domain_ssl_checker.Base.{
  ℕ, Bool, Text, leb, codes, ◌++◌, any, List, ◌&&◌, ◌∷◌, ◌==◌, if◌then◌else◌, [], not, length, ltb,
  ◌||◌,
}

-- `_pwPolicy`
pub record Policy : Type 0 where
  pub min_length : ℕ
  pub require_upper : Bool
  pub require_lower : Bool
  pub require_number : Bool
  pub require_special : Bool

-- The messages of `validatePassword`.
pub data PwError : Type 0 where
  -- "Min n characters"
  too_short : ℕ → PwError
  upper_required lower_required number_required special_required : PwError

abbrev pub is_upper : ℕ → Bool
is_upper c = leb b'A' c && leb c b'Z'

abbrev pub is_lower : ℕ → Bool
is_lower c = leb b'a' c && leb c b'z'

abbrev pub is_number : ℕ → Bool
is_number c = leb b'0' c && leb c b'9'

-- `[!@#$%^&*]`
unfoldable pub test_specials : Text
test_specials = codes "!@#$%^&*"

abbrev pub more_specials : Text
more_specials = codes "()_+-=[]{};':|,.<>/?" ++ 34 ∷ 92 ∷ []

-- `[!@#$%^&*()_+\-=\[\]{};':"\\|,.<>\/?]`; 34 is the double quote and 92 the backslash
unfoldable pub specials : Text
specials = test_specials ++ more_specials

abbrev pub is_in : Text → ℕ → Bool
is_in set c = any (λ d. c == d) set

-- `if (b) errors.push(e);`
abbrev pub push_if : Bool → PwError → List PwError → List PwError
push_if b e errors = if b then errors ++ e ∷ [] else errors

unfoldable pub validate_password : Policy → Text → List PwError
validate_password p pw =
    push_if (p.require_special && not (any (is_in specials) pw)) special_required (
      push_if (p.require_number && not (any is_number pw)) number_required (
        push_if (p.require_lower && not (any is_lower pw)) lower_required (
          push_if (p.require_upper && not (any is_upper pw)) upper_required
            (push_if (ltb (length pw) p.min_length) (too_short p.min_length) []))))

-- The `pass` of each check, in order; an empty input shows no check.
unfoldable pub validate_pw_test_input : Policy → Text → List Bool
validate_pw_test_input p [] = []
validate_pw_test_input p (c ∷ cs) =
    let pw = c ∷ cs in
    leb p.min_length (length pw)
    ∷ (not p.require_upper || any is_upper pw)
    ∷ (not p.require_lower || any is_lower pw)
    ∷ (not p.require_number || any is_number pw)
    ∷ (not p.require_special || any (is_in test_specials) pw)
    ∷ []
