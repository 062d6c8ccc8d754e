-- ===== src/Domains/Notes.antt =====
-- The notes of a row, edited in place: `activateInlineNotes` with the handlers of its text area.
pub mod Laws
mod Tests
use domain_ssl_checker.Forms.Numbers.{is_blank}
use domain_ssl_checker.Base.{
  ℕ, Text, trim, Bool, Option, ◌∷◌, ◌++◌, List, none, if◌then◌else◌, [], some, ◌==◌, text_eq,
}

-- What the edit writes of a row of `_cachedDomains[type]`.
pub record NoteRow : Type 0 where
  pub id : ℕ
  pub notes : Option Text

-- `current` and the value of the text area
pub record NoteArea : Type 0 where
  pub current : Text
  pub value : Text

-- The element of the notes of a row, and the cached rows of its list.
pub record NotesState : Type 0 where
  pub id : ℕ
  -- The text of `notes-text`, which the icon follows, and the class `empty`.
  pub shown : Text
  pub is_empty : Bool
  -- The text area, where it takes the place of the notes.
  pub area : Option NoteArea
  pub cached : List NoteRow

pub data NotesEffect : Type 0 where
  -- `PUT /api/domains/id` with `notes`
  put_notes : ℕ → Text → NotesEffect
  -- The toast of the error
  save_refused : NotesEffect

-- The icon, U+270E.
abbrev pub pencil : ℕ
pencil = 9998

-- `s.replace('✎', '')`: the first one only
abbrev pub without_pencil : Text → Text
without_pencil [] = []
without_pencil (c ∷ s) = let rest = without_pencil s in if c == pencil then s else c ∷ rest

-- A text area that is there stays.
abbrev pub opened_area : Text → Option NoteArea → Option NoteArea
opened_area current none = some (record { current = current; value = current })
opened_area current (some a) = some a

-- The click on the notes.
unfoldable pub activate_notes : NotesState → NotesState
activate_notes s =
    let current = trim (without_pencil (s.shown ++ pencil ∷ [])) in
    record s { area = opened_area current s.area }

abbrev pub typed_area : Text → Option NoteArea → Option NoteArea
typed_area v none = none
typed_area v (some a) = some (record a { value = v })

unfoldable pub type_notes : Text → NotesState → NotesState
type_notes v s = record s { area = typed_area v s.area }

-- `found.notes = newVal`, in the first row of this id
abbrev pub set_notes : ℕ → Text → List NoteRow → List NoteRow
set_notes id v [] = []
set_notes id v (r ∷ rs) =
    let rest = set_notes id v rs in
    if r.id == id then record r { notes = some v } ∷ rs else r ∷ rest

abbrev pub show_notes : Text → NotesState → NotesState
show_notes v s = record s { shown = v; is_empty = is_blank v; area = none }

-- The handler of `blur`; `ok` says that the server takes the notes.
abbrev pub save_notes : Bool → NoteArea → NotesState → NotesState × List NotesEffect
save_notes ok a s =
    let new_val = trim a.value in
    let saved = record (show_notes new_val s) { cached = set_notes s.id new_val s.cached } in
    if text_eq new_val a.current
    then (saved, [])
    else if ok
    then (saved, put_notes s.id new_val ∷ [])
    else (show_notes a.current s, put_notes s.id new_val ∷ save_refused ∷ [])

unfoldable pub blur_notes : Bool → NotesState → NotesState × List NotesEffect
blur_notes ok s = elim s.area [ none ↦ (s, []) | some a ↦ save_notes ok a s ]

-- The keys: Escape puts the text back and leaves the area, Enter with Ctrl or Meta leaves it.
unfoldable pub escape_notes : Bool → NotesState → NotesState × List NotesEffect
unfolding blur_notes
escape_notes ok s = elim s.area [
  | none ↦ (s, [])
  | some a ↦ blur_notes ok (record s { area = some (record a { value = a.current }) })
]
