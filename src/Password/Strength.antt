-- ===== src/Password/Strength.antt =====
-- The strength of a password, as the forms of a user and of the own password show it, and the
-- submission of the own password.
use domain_ssl_checker.Password.{
  Policy, PwError, is_upper, is_lower, is_number, is_in, specials, validate_password, push_if,
  special_required, number_required, lower_required, upper_required, too_short,
}
use domain_ssl_checker.Password.Laws.{is_empty, is_empty-push_if}
use domain_ssl_checker.Base.{
  Bool, Text, ℕ, List, if◌then◌else◌, leb, ◌+◌, Option, false, true, not, ◌∷◌, length, ◌*◌, none,
  [], ◌||◌, ◌≡◌, any, some, text_eq, ◌&&◌, arith, ap, and_true, sym, ◌∙◌, ltb,
}

pub data Strength : Type 0 where
  weak fair good strong : Strength

abbrev pub count : Bool → ℕ
count b = if b then 1 else 0

abbrev pub score_of : Policy → Text → ℕ
score_of p pw =
    count (leb p.min_length (length pw))
    + count (any is_upper pw && p.require_upper)
    + count (any is_lower pw && p.require_lower)
    + count (any is_number pw && p.require_number)
    + count (any (is_in specials) pw && p.require_special)

abbrev pub total_of : Policy → ℕ
total_of p =
    1
    + count p.require_upper
    + count p.require_lower
    + count p.require_number
    + count p.require_special

-- The bounds 0.3, 0.5 and 0.75 of `score / total`
abbrev pub rated : ℕ → ℕ → Strength
rated score total =
    if leb (10 * score) (3 * total)
    then weak
    else if leb (2 * score) total
    then fair
    else if leb (4 * score) (3 * total)
    then good
    else strong

-- What the `input` handler shows; nothing for an empty input.
unfoldable pub strength : Policy → Text → Option Strength
strength p [] = none
strength p (c ∷ cs) = some (rated (score_of p (c ∷ cs)) (total_of p))

-- The requirements that are met, in order.
unfoldable pub met_requirements : Policy → Text → List Bool
met_requirements p [] = false ∷ false ∷ false ∷ false ∷ false ∷ []
met_requirements p (c ∷ cs) =
    let pw = c ∷ cs in
    leb p.min_length (length pw)
    ∷ any is_upper pw
    ∷ any is_lower pw
    ∷ any is_number pw
    ∷ any (is_in specials) pw
    ∷ []

pub data ChangeEffect : Type 0 where
  -- "All fields are required", "New passwords do not match", "Password: ..."
  fields_required passwords_differ : ChangeEffect
  password_refused : List PwError → ChangeEffect
  button_busy button_free : ChangeEffect
  -- `PUT /api/me/password` with the current and the new password
  sent_password : Text → Text → ChangeEffect
  -- The toast, and the dialog closed
  password_changed : ChangeEffect
  change_failed : ChangeEffect

abbrev pub is_missing : Text → Bool
is_missing [] = true
is_missing (c ∷ cs) = false

-- `chgpw-form`
unfoldable pub change_password : Policy → Bool → Text → Text → Text → List ChangeEffect
change_password p ok current new confirm =
    if is_missing current || is_missing new || is_missing confirm
    then fields_required ∷ []
    else if not (text_eq new confirm)
    then passwords_differ ∷ []
    else if not (is_empty (validate_password p new))
    then password_refused (validate_password p new) ∷ []
    else button_busy
      ∷ sent_password current new
      ∷ (if ok then password_changed else change_failed)
      ∷ button_free
      ∷ []

counted : (r h : Bool) → not (r && not h) ≡ true → count (h && r) ≡ count r
counted true h e = ground arith
counted false h e = ground arith

-- The parts of a validation that finds no error.
valid_parts :
    (p : Policy) (pw : Text)
    → is_empty (validate_password p pw) ≡ true
    → (leb p.min_length (length pw) ≡ true)
      × (not (p.require_upper && not (any is_upper pw)) ≡ true)
      × (not (p.require_lower && not (any is_lower pw)) ≡ true)
      × (not (p.require_number && not (any is_number pw)) ≡ true)
      × (not (p.require_special && not (any (is_in specials) pw)) ≡ true)
unfolding validate_password
valid_parts p pw h =
    let (s, h1) = split_error _ special_required _ h in
    let (n, h2) = split_error _ number_required _ h1 in
    let (l, h3) = split_error _ lower_required _ h2 in
    let (u, h4) = split_error _ upper_required _ h3 in
    let (m, h5) = split_error _ (too_short p.min_length) [] h4 in
    (long_enough p.min_length (length pw) m, u, l, n, s)
  where
    split_error :
        (b : Bool) (e : PwError) (es : List PwError)
        → is_empty (push_if b e es) ≡ true
        → (not b ≡ true) × (is_empty es ≡ true)
    split_error b e es k = and_true (not b) (is_empty es) (sym (is_empty-push_if b e es) ∙ k)

    long_enough : (a b : ℕ) → not (ltb b a) ≡ true → leb a b ≡ true
    long_enough a b k = ground arith

full_rating : (a b c d : ℕ) → rated (1 + a + b + c + d) (1 + a + b + c + d) ≡ strong
full_rating a b c d = ground arith

-- A password that the validation accepts is shown as strong.
pub strength-valid :
    (p : Policy) (c : ℕ) (cs : Text)
    → is_empty (validate_password p (c ∷ cs)) ≡ true
    → strength p (c ∷ cs) ≡ some strong
unfolding strength
strength-valid p c cs h =
    let (m, u, l, n, s) = valid_parts p (c ∷ cs) h in
    rw
      (
        m,
        counted p.require_upper (any is_upper (c ∷ cs)) u,
        counted p.require_lower (any is_lower (c ∷ cs)) l,
        counted p.require_number (any is_number (c ∷ cs)) n,
        counted p.require_special (any (is_in specials) (c ∷ cs)) s,
      )
      (ap some (
        full_rating (count p.require_upper) (count p.require_lower) (count p.require_number)
          (count p.require_special)))
