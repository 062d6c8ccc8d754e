-- ===== src/Fields.antt =====
-- The checks of the settings' inputs: `validateField`. Its three regular expressions are tests here:
-- of a host name, of an address, and, in `parseInt`, of the digits at the start.
pub mod Laws
use domain_ssl_checker.Base.{
  filter, ℕ, Text, List, Bool, Option, String, ◌||◌, true, false, all, not, split, if◌then◌else◌,
  none, ℤ, trim, ◌∷◌, ◌&&◌, some, map, str_eq, ◌==◌, [], is_space, negsuc, pos, ltb, leb,
}
use domain_ssl_checker.Forms.Numbers.{parse_int, is_blank}
use domain_ssl_checker.Password.{is_upper, is_lower, is_number}

-- `[a-zA-Z0-9]`
abbrev pub is_alnum : ℕ → Bool
is_alnum c = is_lower c || is_upper c || is_number c

-- `([a-zA-Z0-9\-]*[a-zA-Z0-9])?` up to the end
abbrev pub label_rest : Text → Bool
label_rest [] = true
label_rest (c ∷ []) = is_alnum c
label_rest (c ∷ d ∷ cs) = (is_alnum c || c == b'-') && label_rest (d ∷ cs)

-- One label: `[a-zA-Z0-9]([a-zA-Z0-9\-]*[a-zA-Z0-9])?`
abbrev pub is_label : Text → Bool
is_label [] = false
is_label (c ∷ cs) = is_alnum c && label_rest cs

-- A label, then any number of labels with a dot before each
unfoldable pub is_hostname : Text → Bool
is_hostname t = all is_label (split b'.' t)

-- `[^\s@]+` up to the end
abbrev pub is_part : Text → Bool
is_part t = not (is_blank t) && all (λ c. not (is_space c)) t

-- Some dot that is neither at the start nor at the end
abbrev pub dot_before_end : Text → Bool
dot_before_end [] = false
dot_before_end (c ∷ []) = false
dot_before_end (c ∷ d ∷ cs) = c == b'.' || dot_before_end (d ∷ cs)

abbrev pub has_inner_dot : Text → Bool
has_inner_dot [] = false
has_inner_dot (c ∷ cs) = dot_before_end cs

abbrev pub are_sides : List Text → Bool
are_sides (local ∷ domain ∷ []) = is_part local && is_part domain && has_inner_dot domain
are_sides _ = false

-- `^[^\s@]+@[^\s@]+\.[^\s@]+$`
unfoldable pub is_email : Text → Bool
is_email t = are_sides (split b'@' t)

pub data FieldError : Type 0 where
  -- "Invalid hostname", "Port must be 1-65535", "Invalid email", "Must be a positive number"
  invalid_hostname invalid_port invalid_email not_positive : FieldError
  -- "Invalid email: ..."
  invalid_one : Text → FieldError

abbrev pub error_if : Bool → FieldError → Option FieldError
error_if b e = if b then some e else none

-- `val.split(',').map(e => e.trim()).filter(Boolean)`
abbrev pub emails_of : Text → List Text
emails_of t = filter (λ e. not (is_blank e)) (map trim (split b',' t))

abbrev pub first_invalid : List Text → Option FieldError
first_invalid [] = none
first_invalid (e ∷ es) =
    let rest = first_invalid es in if is_email e then rest else some (invalid_one e)

-- `!isNaN(n) && n >= 1 && n <= max`, without a maximum for `none`
abbrev pub is_between : Option ℕ → Option ℤ → Bool
is_between max none = false
is_between max (some (negsuc n)) = false
is_between none (some (pos n)) = ltb 0 n
is_between (some max) (some (pos n)) = ltb 0 n && leb n max

-- `msg`, for the trimmed value; `none` is the empty message.
unfoldable pub field_error : String → Text → Option FieldError
field_error type val =
    if str_eq type "hostname"
    then error_if (not (is_blank val) && not (is_hostname val)) invalid_hostname
    else if str_eq type "port"
    then error_if (not (is_between (some 65535) (parse_int val))) invalid_port
    else if str_eq type "email"
    then error_if (not (is_blank val) && not (is_email val)) invalid_email
    else if str_eq type "emails"
    then first_invalid (emails_of val)
    else if str_eq type "positive-int"
    then error_if (not (is_between none (parse_int val))) not_positive
    else none

-- What the input shows: the message and its two classes.
pub record FieldShown : Type 0 where
  pub error : Option FieldError
  pub invalid : Bool
  pub valid : Bool

abbrev pub is_error : Option FieldError → Bool
is_error none = false
is_error (some e) = true

-- `validateField`, with what it returns
unfoldable pub validate_field : String → Text → FieldShown × Bool
validate_field type value =
    let e = field_error type (trim value) in
    (
      record {
        error = e;
        invalid = is_error e;
        valid = not (is_error e) && not (is_blank (trim value));
      },
      not (is_error e),
    )

-- The loop over the fields of the settings: each is checked, also after one that fails.
unfoldable pub validate_all : List (String × Text) → List FieldShown × Bool
validate_all [] = ([], true)
validate_all ((type, value) ∷ fs) =
    let (shown, ok) = validate_field type value in
    let (rest, rest_ok) = validate_all fs in (shown ∷ rest, ok && rest_ok)
