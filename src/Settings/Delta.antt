-- ===== src/Settings/Delta.antt =====
-- The changed fields, laid over what was loaded, are the form.
use domain_ssl_checker.Base.{
  ◌∷◌, or_false, and_true, false_of_not, ◌||◌, not, Bool-cases, refl, ◌&&◌, inl, inr, sym, ◌∙◌,
  text_eq_iff, String, Bool, Text, str_eq, ◌≡◌, all, false, true, text_eq, ap, ◌++◌, some,
  str_eq_iff, [], arith,
}
use domain_ssl_checker.Settings.{field_of, Value, Fields, changes_of, value_text}

-- No key occurs twice.
abbrev pub has_key : String → Fields → Bool
has_key key [] = false
has_key key ((k, v) ∷ fs) = str_eq k key || has_key key fs

abbrev pub are_distinct : Fields → Bool
are_distinct [] = true
are_distinct ((k, v) ∷ fs) = not (has_key k fs) && are_distinct fs

-- The texts that an object has for a key.
abbrev pub text_of : String → Fields → Text
text_of key fs = value_text (field_of key fs)

text_of-same : (k key : String) (fs : Fields) → str_eq k key ≡ true → text_of k fs ≡ text_of key fs
text_of-same k key fs h = ap (λ x. text_of x fs) ((str_eq_iff k key).0 h)

-- A field is left out of the changes.
abbrev pub is_kept : Fields → String × Value → Bool
is_kept original f = text_eq (value_text (some f.1)) (value_text (field_of f.0 original))

-- What is not a key of the form, no change has.
field_of-changes_absent :
    (key : String) (current original over : Fields)
    → has_key key current ≡ false
    → field_of key (changes_of current original ++ over) ≡ field_of key over
unfolding changes_of
field_of-changes_absent key [] original over h = refl
field_of-changes_absent key ((k, v) ∷ fs) original over h =
    let (other, absent) = or_false (str_eq k key) _ h in
    elim (Bool-cases (is_kept original (k, v))) [
      | inl kept ↦ rw kept (field_of-changes_absent key fs original over absent)
      | inr sent ↦ rw (sent, other) (field_of-changes_absent key fs original over absent)
    ]

or_right : {a b : Bool} → a ≡ false → (a || b) ≡ true → b ≡ true
or_right e h = ground arith

-- The server has the loaded settings, and takes the changes over them: it then has the text of each
-- field of the form.
pub text_of-changes :
    (key : String) (current original : Fields)
    → are_distinct current ≡ true
    → has_key key current ≡ true
    → text_of key (changes_of current original ++ original) ≡ text_of key current
unfolding changes_of
text_of-changes key [] original d h = ground arith
text_of-changes key ((k, v) ∷ fs) original d h =
    let (fresh, rest) = and_true (not (has_key k fs)) _ d in
    elim (Bool-cases (str_eq k key)) [
      | inl own ↦ elim (Bool-cases (is_kept original (k, v))) [
        | inl kept ↦
            rw (kept, own)
              (ap value_text (
                  field_of-changes_absent key fs original original (
                    sym (ap (λ x. has_key x fs) ((str_eq_iff k key).0 own)) ∙ false_of_not _ fresh))
                ∙ sym (text_of-same k key original own)
                ∙ sym (text_eq_iff _ _ kept))
        | inr sent ↦ rw (sent, own) refl
      ]
      | inr other ↦ elim (Bool-cases (is_kept original (k, v))) [
        | inl kept ↦ rw (kept, other) (text_of-changes key fs original rest (or_right other h))
        | inr sent ↦ rw (sent, other) (text_of-changes key fs original rest (or_right other h))
      ]
    ]

-- A form that is as it was loaded has no changes.
pub changes_of-none :
    (current original : Fields)
    → all (is_kept original) current ≡ true
    → changes_of current original ≡ []
unfolding changes_of
changes_of-none [] original h = refl
changes_of-none ((k, v) ∷ fs) original h =
    let (kept, rest) = and_true (is_kept original (k, v)) _ h in
    rw kept (changes_of-none fs original rest)
