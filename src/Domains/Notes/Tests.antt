-- ===== src/Domains/Notes/Tests.antt =====
-- The theorem on the notes, at an edit that the server refuses.
use domain_ssl_checker.Domains.Notes.{
  NotesState, put_notes, save_refused, type_notes, activate_notes, blur_notes, escape_notes,
}
use domain_ssl_checker.Domains.Notes.Laws.{edit_notes_lem}
use domain_ssl_checker.Base.{codes, false, none, ◌≡◌, ◌∷◌, some, [], refl}

abbrev some_notes : NotesState
some_notes = record {
  id = 4;
  shown = codes "old";
  is_empty = false;
  area = none;
  cached = record { id = 3; notes = none } ∷ record { id = 4; notes = some (codes "old") } ∷ [];
}

edit_notes_example :
    let edited = type_notes (codes " new ") (activate_notes some_notes) in
    let (after, es) = blur_notes false edited in
    let (undone, none_sent) = escape_notes false edited in
    (es ≡ put_notes 4 (codes "new") ∷ save_refused ∷ [])
    × (after.shown ≡ codes "old")
    × (after.cached ≡ some_notes.cached)
    × (none_sent ≡ [])
    × (undone.shown ≡ codes "old")
edit_notes_example =
    edit_notes_lem false (codes " new ") some_notes
      (record { trimmed = refl; no_pencil = refl; no_area = refl })
