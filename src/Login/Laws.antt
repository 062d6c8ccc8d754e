-- ===== src/Login/Laws.antt =====
-- What a submission of the login form does.
use domain_ssl_checker.Base.{
  none, some, ◌∙◌, ap, Bool, false, not, ◌≡◌, ◌&&◌, refl, ℕ, ◌==◌, true, Text, trim, ◌∷◌,
}
use domain_ssl_checker.Login.{
  rejected, no_json, answered, Answer, LoginState, submit, receive, send, show_error,
  save_remembered, schedule_dismiss, load_remembered, clear_error, to_store,
}

-- The answer lets the user in.
abbrev pub is_ok : Answer → Bool
is_ok (rejected m) = false
is_ok (no_json status m) = false
is_ok (answered status ok e) = ok

-- The answer is one that the page can read, and it says that there were too many attempts.
abbrev pub is_too_many : Answer → Bool
is_too_many (rejected m) = false
is_too_many (no_json status m) = false
is_too_many (answered status ok e) = not ok && status == 429

abbrev pub is_shown_error : LoginState → Bool
is_shown_error s = elim s.error [ none ↦ false | some m ↦ true ]

-- Whatever the answer of the server, or its failure: the button is free again, the page is left
-- exactly if the answer lets the user in, and otherwise an error is shown, on both inputs, that a
-- timer will clear. It has the look of a locked account exactly for a refusal with status 429.
pub submit_lem :
    (writes : Bool) (a : Answer) (s : LoginState)
    → s.left ≡ false
    → ((submit writes a s).loading ≡ false)
      × ((submit writes a s).left ≡ is_ok a)
      × (is_shown_error (submit writes a s) ≡ not (is_ok a))
      × ((submit writes a s).username_error ≡ not (is_ok a))
      × ((submit writes a s).password_error ≡ not (is_ok a))
      × ((submit writes a s).dismiss ≡ not (is_ok a))
      × ((submit writes a s).locked ≡ is_too_many a)
unfolding submit send receive save_remembered clear_error show_error schedule_dismiss
submit_lem writes (rejected m) s h = (refl, h, refl, refl, refl, refl, refl)
submit_lem writes (no_json status m) s h = (refl, h, refl, refl, refl, refl, refl)
submit_lem writes (answered status true e) s h = (refl, refl, refl, refl, refl, refl, refl)
submit_lem writes (answered status false e) s h = (refl, h, refl, refl, refl, refl, refl)

receive-stored : (a : Answer) (s : LoginState) → (receive a s).stored ≡ s.stored
unfolding receive show_error schedule_dismiss
receive-stored (rejected m) s = refl
receive-stored (no_json status m) s = refl
receive-stored (answered status true e) s = refl
receive-stored (answered status false e) s = refl

submit-stored :
    (a : Answer) (s : LoginState) → (submit true a s).stored ≡ to_store s.remember (trim s.username)
unfolding submit send save_remembered clear_error
submit-stored a s = receive-stored a (send true s)

-- What a page loaded with the storage of a submission starts with.
module _ (a : Answer) (s t : LoginState) where
  abbrev pub reloaded : LoginState
  reloaded = load_remembered (record t { stored = (submit true a s).stored })

-- A name that is not blank, submitted with "remember me" to a storage that works, is what a page
-- loaded afterwards starts with, trimmed and with the box checked; submitted without it, the page
-- loaded afterwards keeps its empty form.
pub load_remembered-submit :
    (a : Answer) (s t : LoginState) (c : ℕ) (cs : Text)
    → trim s.username ≡ c ∷ cs
    → s.remember ≡ true
    → ((reloaded a s t).username ≡ c ∷ cs)
      × ((reloaded a s t).remember ≡ true)
      × ((reloaded a (record s { remember = false }) t).username ≡ t.username)
unfolding load_remembered
load_remembered-submit a s t c cs name remember =
    let kept : (submit true a s).stored ≡ some (c ∷ cs) =
      submit-stored a s ∙ rw (remember, name) refl in
    (
      ap (λ o. (load_remembered (record t { stored = o })).username) kept,
      ap (λ o. (load_remembered (record t { stored = o })).remember) kept,
      ap (λ o. (load_remembered (record t { stored = o })).username)
          (submit-stored a (record s { remember = false })),
    )
