-- ===== src/Webapps/Actions/Laws.antt =====
-- What the bulk edit of web apps sends.
use mathlib.Core.List.{append-nil}
use domain_ssl_checker.Webapps.Actions.{
  submit_bulk_edit, payload_of, BulkEditForm, BulkPayload, WebappAction, WebappActionState,
  sent_edit, webapps_reloaded, is_empty_payload,
}
use domain_ssl_checker.Forms.Numbers.{is_blank}
use domain_ssl_checker.Base.{
  List, Bool, ℕ, false, ◌&&◌, Text, ◌∷◌, true, trim, map, ◌≡◌, [], not, ◌++◌, arith, ◌||◌, ap, refl,
  all, if◌then◌else◌, Bool-cases, inl, inr, ◌∙◌,
}

-- The requests of an action.
abbrev pub edits_of : List WebappAction → List (ℕ × BulkPayload)
edits_of [] = []
edits_of (sent_edit id p ∷ es) = (id, p) ∷ edits_of es
edits_of (e ∷ es) = edits_of es

abbrev pub reloads : List WebappAction → Bool
reloads [] = false
reloads (webapps_reloaded ∷ es) = true
reloads (e ∷ es) = reloads es

-- Nothing is entered in the form.
abbrev pub is_untouched : BulkEditForm → Bool
is_untouched f =
    is_blank f.check_interval
    && is_blank (trim f.timeout)
    && not (f.make_active || f.make_inactive)
    && is_blank (trim f.tags)

edits-map :
    (ids : List ℕ) (p : BulkPayload) (es : List WebappAction)
    → edits_of (map (λ id. sent_edit id p) ids ++ es) ≡ map (λ id. (id, p)) ids ++ edits_of es
edits-map [] p es = refl
edits-map (id ∷ ids) p es = ap (◌∷◌ (id, p)) (edits-map ids p es)

reloads-map :
    (ids : List ℕ) (p : BulkPayload) (es : List WebappAction)
    → reloads (map (λ id. sent_edit id p) ids ++ es) ≡ reloads es
reloads-map [] p es = refl
reloads-map (id ∷ ids) p es = reloads-map ids p es

module _ (write : List Text → Text) where
  payload-untouched :
      (f : BulkEditForm) → is_empty_payload write (payload_of write f) ≡ is_untouched f
  unfolding payload_of
  payload-untouched f = ground arith

  -- A submission of the bulk edit with some web apps selected sends nothing if nothing was entered, and
  -- else the same entries for each of them, in their order. Only where something was entered and the
  -- server takes every request are the selection emptied, the dialog closed and the list loaded again.
  pub submit_bulk_edit_lem :
      (accepts : ℕ → Bool) (f : BulkEditForm) (id : ℕ) (ids : List ℕ) (is_open : Bool)
      → let s : WebappActionState = record { selected = id ∷ ids; edit_open = is_open } in
        let (after, es) = submit_bulk_edit write accepts f s in
        let done = not (is_untouched f) && all accepts s.selected in
        (edits_of es
          ≡ (if is_untouched f then [] else map (λ id. (id, payload_of write f)) s.selected))
        × (after.selected ≡ (if done then [] else s.selected))
        × (after.edit_open ≡ (if done then false else is_open))
        × (reloads es ≡ done)
  unfolding submit_bulk_edit
  submit_bulk_edit_lem accepts f id ids is_open =
      let p = payload_of write f in
      elim (Bool-cases (is_untouched f)) [
        | inl nothing ↦ rw (payload-untouched f, nothing) (refl, refl, refl, refl)
        | inr some_entry ↦ elim (Bool-cases (all accepts (id ∷ ids))) [
          | inl taken ↦
              rw (payload-untouched f, some_entry, taken)
                (edits-map (id ∷ ids) p _ ∙ append-nil _, refl, refl, reloads-map (id ∷ ids) p _)
          | inr refused ↦
              rw (payload-untouched f, some_entry, refused)
                (edits-map (id ∷ ids) p _ ∙ append-nil _, refl, refl, reloads-map (id ∷ ids) p _)
        ]
      ]
