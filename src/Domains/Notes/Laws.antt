-- ===== src/Domains/Notes/Laws.antt =====
-- What an edit of the notes sends and leaves.
use domain_ssl_checker.Domains.Notes.{
  NotesState, put_notes, save_refused, pencil, without_pencil, activate_notes, type_notes,
  set_notes, blur_notes, escape_notes, opened_area,
}
use domain_ssl_checker.Base.{
  Text, trim, ◌≡◌, Bool, any, some, text_eq, ◌==◌, if◌then◌else◌, false, [], ◌++◌, none, ◌∷◌,
  or_false, ◌||◌, ap, refl, Bool-cases, inl, text_eq_self, inr, true, trim-trim, ◌∙◌,
}

without_pencil-last :
    (s : Text) → any (λ c. c == pencil) s ≡ false → without_pencil (s ++ pencil ∷ []) ≡ s
without_pencil-last [] h = refl
without_pencil-last (c ∷ s) h =
    let (e, rest) = or_false (c == pencil) _ h in rw e (ap (c ∷◌) (without_pencil-last s rest))

-- Notes that the page shows as they were saved: trimmed, without the sign of the icon, and no text area.
pub record IsPlain (s : NotesState) : Type 0 where
  pub trimmed : trim s.shown ≡ s.shown
  pub no_pencil : any (λ c. c == pencil) s.shown ≡ false
  pub no_area : s.area ≡ none

-- The text area of notes that are shown.
opened :
    (s : NotesState)
    → IsPlain s
    → activate_notes s ≡ record s { area = some (record { current = s.shown; value = s.shown }) }
unfolding activate_notes
opened s p =
    let shut = ap (opened_area (trim (without_pencil (s.shown ++ pencil ∷ [])))) p.no_area in
    let text = ap trim (without_pencil-last s.shown p.no_pencil) ∙ p.trimmed in
    ap (λ a. record s { area = a }) (shut ∙ ap (λ t. opened_area t none) text)

-- Of an edit of plain notes: what is typed is sent, without the white space at its ends, if it differs
-- from the notes. It is then shown and cached if the server takes it; if not, the notes are shown as they
-- were, and the cache stays. Escape sends nothing and shows the notes as they were, whatever was typed.
pub edit_notes_lem :
    (ok : Bool) (v : Text) (s : NotesState)
    → IsPlain s
    → let edited = type_notes v (activate_notes s) in
      let (after, es) = blur_notes ok edited in
      let (undone, none_sent) = escape_notes ok edited in
      let same = text_eq (trim v) s.shown in
      (es ≡ (if same then [] else put_notes s.id (trim v) ∷ (if ok then [] else save_refused ∷ [])))
      × (after.shown ≡ (if ok || same then trim v else s.shown))
      × (after.cached ≡ (if ok || same then set_notes s.id (trim v) s.cached else s.cached))
      × (none_sent ≡ [])
      × (undone.shown ≡ s.shown)
unfolding blur_notes escape_notes type_notes
edit_notes_lem true v s p = elim (Bool-cases (text_eq (trim v) s.shown)) [
  | inl same ↦ rw (opened s p, same, p.trimmed, text_eq_self s.shown) (refl, refl, refl, refl, refl)
  | inr other ↦
      rw (opened s p, other, p.trimmed, text_eq_self s.shown) (refl, refl, refl, refl, refl)
]
edit_notes_lem false v s p = elim (Bool-cases (text_eq (trim v) s.shown)) [
  | inl same ↦ rw (opened s p, same, p.trimmed, text_eq_self s.shown) (refl, refl, refl, refl, refl)
  | inr other ↦
      rw (opened s p, other, p.trimmed, text_eq_self s.shown) (refl, refl, refl, refl, refl)
]

-- The notes that an edit leaves are plain again, if what was typed holds no sign of the icon.
pub edit_notes-IsPlain :
    (ok : Bool) (v : Text) (s : NotesState)
    → IsPlain s
    → any (λ c. c == pencil) (trim v) ≡ false
    → IsPlain (blur_notes ok (type_notes v (activate_notes s))).0
unfolding blur_notes type_notes
edit_notes-IsPlain true v s p h = elim (Bool-cases (text_eq (trim v) s.shown)) [
  | inl same ↦
      rw (opened s p, same) (record { trimmed = trim-trim v; no_pencil = h; no_area = refl })
  | inr other ↦
      rw (opened s p, other) (record { trimmed = trim-trim v; no_pencil = h; no_area = refl })
]
edit_notes-IsPlain false v s p h = elim (Bool-cases (text_eq (trim v) s.shown)) [
  | inl same ↦
      rw (opened s p, same) (record { trimmed = trim-trim v; no_pencil = h; no_area = refl })
  | inr other ↦
      rw (opened s p, other)
        (record { trimmed = p.trimmed; no_pencil = p.no_pencil; no_area = refl })
]
