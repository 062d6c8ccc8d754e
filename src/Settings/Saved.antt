-- ===== src/Settings/Saved.antt =====
-- The settings that were saved.
use domain_ssl_checker.Base.{
  ◌∷◌, or_false, and_true, false_of_not, List, String, ◌++◌, ◌≡◌, [], true, false, text_eq_self,
  str_eq_iff, all, refl, not, some, ◌∙◌, str_eq, Bool-cases, Bool, inl, arith, sym, inr, ap,
}
use domain_ssl_checker.Settings.{
  text, flag, put_settings, no_changes, Value, Fields, form_data, Form, SaveEffect, same_value,
  same_fields, changes_of, value_text, submit_settings, put_fields, update_unsaved, SettingsState,
  with_password, save_changes, keep_original,
}
use domain_ssl_checker.Settings.Delta.{
  has_key, are_distinct, changes_of-none, is_kept, text_of, text_of-changes,
}

-- The requests' fields laid over others.
abbrev pub laid_over : List SaveEffect → Fields → Fields
laid_over [] base = base
laid_over (put_settings fields ∷ es) base = fields ++ laid_over es base
laid_over (e ∷ es) base = laid_over es base

same_value_self : (v : Value) → same_value v v ≡ true
same_value_self (text t) = text_eq_self t
same_value_self (flag true) = refl
same_value_self (flag false) = refl

same_fields_self : (fs : Fields) → same_fields fs fs ≡ true
same_fields_self [] = refl
same_fields_self ((k, v) ∷ fs) =
    rw ((str_eq_iff k k).1 refl, same_value_self v, same_fields_self fs) refl

other_order : (k l : String) → str_eq k l ≡ false → str_eq l k ≡ false
other_order k l h = elim (Bool-cases (str_eq l k)) [
  | inl e ↦ ground (arith, (str_eq_iff k l).1 (sym ((str_eq_iff l k).0 e)))
  | inr e ↦ e
]

is_kept-cons :
    (k : String) (v : Value) (original fs : Fields)
    → has_key k fs ≡ false
    → all (is_kept ((k, v) ∷ original)) fs ≡ all (is_kept original) fs
is_kept-cons k v original [] h = refl
is_kept-cons k v original ((l, w) ∷ fs) h =
    let (other, rest) = or_false (str_eq l k) _ h in
    rw (other_order l k other, is_kept-cons k v original fs rest) refl

own_kept : (fs : Fields) → are_distinct fs ≡ true → all (is_kept fs) fs ≡ true
own_kept [] d = refl
own_kept ((k, v) ∷ fs) d =
    let (fresh, rest) = and_true (not (has_key k fs)) _ d in
    rw ((str_eq_iff k k).1 refl, text_eq_self (value_text (some v)))
      (is_kept-cons k v fs fs (false_of_not _ fresh) ∙ own_kept fs rest)

-- The keys of the form are distinct, whatever it holds.
form_data-distinct : (form : Form) → are_distinct (form_data form) ≡ true
unfolding form_data
form_data-distinct form = refl

form_data-unchanged : (form : Form) → changes_of (form_data form) (form_data form) ≡ []
form_data-unchanged form =
    changes_of-none (form_data form) (form_data form)
      (own_kept (form_data form) (form_data-distinct form))

-- A save of an unchanged form, with no new password.
submit-unchanged :
    (ok : Bool) (s : SettingsState)
    → s.password ≡ []
    → s.original ≡ form_data s.form
    → (submit_settings true ok s).1 ≡ no_changes ∷ []
unfolding submit_settings
submit-unchanged ok s p o = rw (p, o, form_data-unchanged s.form) refl

changes_without :
    (s : SettingsState)
    → s.password ≡ []
    → with_password s.password (changes_of (form_data s.form) s.original)
      ≡ changes_of (form_data s.form) s.original
changes_without s p = rw p refl

laid_over-save_changes :
    (ok : Bool) (changes base : Fields) (s : SettingsState)
    → laid_over (save_changes ok changes s).1 base ≡ changes ++ base
unfolding put_fields
laid_over-save_changes ok [] base s = refl
laid_over-save_changes true (f ∷ fs) base s = refl
laid_over-save_changes false (f ∷ fs) base s = refl

resubmit :
    (ok : Bool) (changes : Fields) (s : SettingsState)
    → s.password ≡ []
    → with_password s.password (changes_of (form_data s.form) s.original) ≡ changes
    → (submit_settings true ok (save_changes true changes s).0).1 ≡ no_changes ∷ []
unfolding submit_settings put_fields update_unsaved
resubmit ok [] s p e = ap (λ fs. (save_changes ok fs s).1) e
resubmit ok (f ∷ fs) s p e = submit-unchanged ok (keep_original (form_data s.form) s) p refl

save_changes-refused : (changes : Fields) (s : SettingsState) → (save_changes false changes s).0 ≡ s
unfolding put_fields
save_changes-refused [] s = refl
save_changes-refused (f ∷ fs) s = refl

-- The form was filled in without a new password, and its fields are valid. What the submission
-- sends, laid over the loaded settings, has the text of each field of the form. Once the server has
-- accepted it, a second submission finds no changes; where the server refuses it, the page is as it
-- was.
pub submit_settings_lem :
    (ok : Bool) (key : String) (s : SettingsState)
    → s.password ≡ []
    → has_key key (form_data s.form) ≡ true
    → (text_of key (laid_over (submit_settings true ok s).1 s.original)
        ≡ text_of key (form_data s.form))
      × ((submit_settings true ok (submit_settings true true s).0).1 ≡ no_changes ∷ [])
      × ((submit_settings true false s).0 ≡ s)
unfolding submit_settings
submit_settings_lem ok key s p h = (
  ap (text_of key) (
        laid_over-save_changes ok
          (with_password s.password (changes_of (form_data s.form) s.original)) s.original s
        ∙ ap (λ fs. fs ++ s.original) (changes_without s p))
      ∙ text_of-changes key (form_data s.form) s.original (form_data-distinct s.form) h,
  resubmit ok (with_password s.password (changes_of (form_data s.form) s.original)) s p refl,
  save_changes-refused (with_password s.password (changes_of (form_data s.form) s.original)) s,
)
