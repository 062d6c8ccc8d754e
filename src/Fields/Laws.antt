-- ===== src/Fields/Laws.antt =====
-- What the checks of the inputs accept.
use domain_ssl_checker.Base.{
  List, Text, String, ◌≡◌, not, all, ◌∷◌, Bool-cases, ap, inl, inr, trim, [], ◌&&◌, refl,
}
use domain_ssl_checker.Fields.{
  validate_all, validate_field, is_error, first_invalid, is_email, field_error,
}

-- The addresses of a list are accepted exactly if each of them is.
first_invalid_lem : (es : List Text) → is_error (first_invalid es) ≡ not (all is_email es)
first_invalid_lem [] = refl
first_invalid_lem (e ∷ es) = elim (Bool-cases (is_email e)) [
  | inl h ↦ rw h (first_invalid_lem es)
  | inr h ↦ rw h refl
]

-- The settings are sent exactly if no field shows an error.
pub validate_all_lem :
    (fs : List (String × Text)) → (validate_all fs).1 ≡ all (λ s. not s.invalid) (validate_all fs).0
unfolding validate_all validate_field
validate_all_lem [] = refl
validate_all_lem ((type, value) ∷ fs) =
    ap (not (is_error (field_error type (trim value))) &&◌) (validate_all_lem fs)
