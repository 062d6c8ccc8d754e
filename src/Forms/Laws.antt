-- ===== src/Forms/Laws.antt =====
-- What the form of a user sends.
use domain_ssl_checker.Forms.UserForm.{
  update_user, invite_user, create_user, sent, user_logged, button_busy, button_free, submit_user,
  send_user, add_user, keeps_policy, UserFormEffect, UserRequest, UserForm,
}
use domain_ssl_checker.Password.{Policy}
use domain_ssl_checker.Base.{
  List, Bool, Option, true, all, Text, ◌≡◌, some, not, ◌∷◌, false, length, arith, [], Bool-cases,
  ◌≤◌, any, refl, inl, inr, ◌&&◌, trim, none, ◌==◌,
}
use domain_ssl_checker.Forms.Numbers.{or_null, is_blank}

abbrev pub password_ok : Policy → Option Text → Bool
password_ok p none = true
password_ok p (some pw) = not (is_blank pw) && keeps_policy p pw

-- A password keeps the policy, and a new user has an email, and a password or an invitation.
abbrev pub request_ok : Policy → UserRequest → Bool
request_ok p (update_user id role pw email) = password_ok p pw
request_ok p (invite_user name email role) = not (is_blank email)
request_ok p (create_user name pw role email) = password_ok p (some pw) && not (is_blank email)

abbrev pub sent_of : List UserFormEffect → List UserRequest
sent_of [] = []
sent_of (sent r ∷ es) = r ∷ sent_of es
sent_of (e ∷ es) = sent_of es

abbrev pub is_log : UserFormEffect → Bool
is_log (user_logged updated name) = true
is_log e = false

-- Whether the button is busy at the end.
abbrev pub is_busy : Bool → List UserFormEffect → Bool
is_busy b [] = b
is_busy b (button_busy ∷ es) = is_busy true es
is_busy b (button_free ∷ es) = is_busy false es
is_busy b (e ∷ es) = is_busy b es

-- The effects of a submission: at most one request, a valid one, that is logged if the server
-- accepts it, and the button free at the end.
pub record IsSound (p : Policy) (ok : Bool) (es : List UserFormEffect) : Type 0 where
  pub valid : all (request_ok p) (sent_of es) ≡ true
  pub at_most_one : length (sent_of es) ≤ 1
  pub logged : any is_log es ≡ (ok && not (length (sent_of es) == 0))
  pub free : is_busy false es ≡ false

send_user-IsSound :
    (p : Policy) (ok updated : Bool) (name : Text) (r : UserRequest)
    → request_ok p r ≡ true
    → IsSound p ok (send_user ok updated name r)
unfolding send_user
send_user-IsSound p true updated name r h = record {
  valid = rw h refl;
  at_most_one = omega arith;
  logged = refl;
  free = refl;
}
send_user-IsSound p false updated name r h = record {
  valid = rw h refl;
  at_most_one = omega arith;
  logged = refl;
  free = refl;
}

nothing-IsSound :
    (p : Policy) (ok : Bool) (es : List UserFormEffect)
    → sent_of es ≡ []
    → any is_log es ≡ false
    → is_busy false es ≡ false
    → IsSound p ok es
nothing-IsSound p ok es s l b = record {
  valid = rw s refl;
  at_most_one = rw s (omega arith);
  logged = rw (s, l) (ground arith);
  free = b;
}

keeps-or_null :
    (p : Policy) (pw : Text) → keeps_policy p pw ≡ true → password_ok p (or_null pw) ≡ true
keeps-or_null p [] h = refl
keeps-or_null p (c ∷ cs) h = h

add_user-IsSound :
    (p : Policy) (ok : Bool) (f : UserForm)
    → keeps_policy p f.password ≡ true
    → IsSound p ok (add_user ok f)
unfolding add_user
add_user-IsSound p ok f h = elim (Bool-cases f.invite_mode) [
  | inl i ↦ rw i (elim (Bool-cases (is_blank (trim f.email))) [
    | inl e ↦ rw e (nothing-IsSound p ok _ refl refl refl)
    | inr e ↦ rw e (
        send_user-IsSound p ok false (trim f.username)
          (invite_user (trim f.username) (trim f.email) f.role) (rw e refl))
  ])
  | inr i ↦ rw i (elim (Bool-cases (is_blank f.password)) [
    | inl w ↦ rw w (nothing-IsSound p ok _ refl refl refl)
    | inr w ↦ rw w (elim (Bool-cases (is_blank (trim f.email))) [
      | inl e ↦ rw e (nothing-IsSound p ok _ refl refl refl)
      | inr e ↦ rw e (
          send_user-IsSound p ok false (trim f.username)
            (create_user (trim f.username) f.password f.role (trim f.email)) (rw (w, h, e) refl))
    ])
  ])
]

-- Every submission of the form of a user sends at most one request. Its password, if it has one,
-- keeps the policy; an invitation has an email, and a user created without one a password and an
-- email. The change is logged exactly if a request was sent and accepted, and the button is free.
pub submit_user-IsSound :
    (p : Policy) (ok : Bool) (f : UserForm) → IsSound p ok (submit_user p ok f)
unfolding submit_user
submit_user-IsSound p ok f = elim (Bool-cases (keeps_policy p f.password)) [
  | inr k ↦ rw k (nothing-IsSound p ok _ refl refl refl)
  | inl k ↦ rw k (elim (Bool-cases (is_blank f.id)) [
    | inl i ↦ rw i (add_user-IsSound p ok f k)
    | inr i ↦ rw i (
        send_user-IsSound p ok true (trim f.username)
          (update_user f.id f.role (or_null f.password) (or_null (trim f.email)))
          (keeps-or_null p f.password k))
  ])
]
