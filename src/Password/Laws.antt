-- ===== src/Password/Laws.antt =====
-- The live test against the validation.
use domain_ssl_checker.Password.{
  Policy, PwError, specials, test_specials, is_in, validate_password, validate_pw_test_input,
  push_if, more_specials,
}
use domain_ssl_checker.Base.{
  List, ℕ, Text, Bool, ◌≡◌, any, all, true, ◌∷◌, false, ◌++◌, ◌&&◌, [], any-append, not, arith,
  ◌||◌, refl,
}

abbrev pub is_empty : List PwError → Bool
is_empty [] = true
is_empty (e ∷ es) = false

is_in_append : (c : ℕ) (s t : Text) → is_in s c ≡ true → is_in (s ++ t) c ≡ true
is_in_append c s t h = rw any-append (ground arith)

any-is_in_append : (s t pw : Text) → any (is_in s) pw ≡ true → any (is_in (s ++ t)) pw ≡ true
any-is_in_append s t [] h = h
any-is_in_append s t (c ∷ pw) h = ground (arith, is_in_append c s t, any-is_in_append s t pw)

any-specials : (pw : Text) → any (is_in test_specials) pw ≡ true → any (is_in specials) pw ≡ true
unfolding specials
any-specials = any-is_in_append test_specials more_specials

pub is_empty-push_if :
    (b : Bool) (e : PwError) (es : List PwError)
    → is_empty (push_if b e es) ≡ (not b && is_empty es)
is_empty-push_if true e [] = refl
is_empty-push_if true e (x ∷ es) = refl
is_empty-push_if false e es = refl

-- For a text that is not empty the live test passes exactly where the validation finds no error
-- and, if a special character is required, one of `!@#$%^&*` is there.
pub validate_pw_test_input_lem :
    (p : Policy) (c : ℕ) (cs : Text)
    → all (λ b. b) (validate_pw_test_input p (c ∷ cs)) ≡ (
        is_empty (validate_password p (c ∷ cs))
        && (not p.require_special || any (is_in test_specials) (c ∷ cs)))
unfolding validate_password validate_pw_test_input
validate_pw_test_input_lem p c cs = simp is_empty-push_if (ground (arith, any-specials (c ∷ cs)))
