-- ===== src/Bulk.antt =====
-- The bulk edits of a domain list: tags and notes. `parse` is `JSON.parse` on the text of the tags,
-- `none` where it throws, and `write` is `JSON.stringify`.
pub mod Laws
mod Tests
use mathlib.Core.Option
use domain_ssl_checker.Base.{
  filter, map, split, ℕ, String, Text, List, Option, Bool, ◌∷◌, if◌then◌else◌, trim, not, true, any,
  [], str_eq, some, find?, ◌++◌, length, false, text_eq, none, ◌==◌, ◌&&◌,
}
use domain_ssl_checker.Domains.{ListType}
use domain_ssl_checker.Checks.{is_nil}

-- What the edits read of a row of `_cachedDomains[type]`.
pub record TagRow : Type 0 where
  pub id : ℕ
  pub tags : Option Text
  pub notes : Option Text

pub data BulkEffect : Type 0 where
  -- "Admin access required"
  refused : BulkEffect
  -- `PUT /api/domains/id` with `tags`, and with `notes`
  sent_tags sent_notes : ℕ → Text → BulkEffect
  -- The toast, for a number of rows
  tags_updated notes_added : ℕ → BulkEffect
  dialog_closed : BulkEffect
  -- `POST /api/logs`
  tags_logged : String → ℕ → BulkEffect
  notes_logged : ℕ → BulkEffect
  -- `clearDomainsCache` and `loadDomains`
  list_reloaded : BulkEffect

-- The dialog of the tags: its title's number, its two inputs, its type, and its class `open`.
pub record TagDialog : Type 0 where
  pub count : ℕ
  pub input : Text
  pub mode : String
  pub type : ListType
  pub is_open : Bool

-- `openBulkTags`
unfoldable pub open_bulk_tags : String → ListType → List ℕ → TagDialog → TagDialog × List BulkEffect
open_bulk_tags role type selected dialog =
    if not (str_eq role "admin")
    then (dialog, refused ∷ [])
    else if is_nil selected
    then (dialog, [])
    else (
      record { count = length selected; input = []; mode = "replace"; type = type; is_open = true },
      [],
    )

abbrev pub is_empty_text : Text → Bool
is_empty_text [] = true
is_empty_text (c ∷ cs) = false

-- `raw.split(',').map(t => t.trim()).filter(Boolean)`
unfoldable pub parse_tags : Text → List Text
parse_tags raw = filter (λ t. not (is_empty_text t)) (map trim (split b',' (trim raw)))

abbrev pub no_tags : List Text → Bool
no_tags [] = true
no_tags (t ∷ ts) = false

abbrev pub has_text : Text → List Text → Bool
has_text t ts = any (text_eq t) ts

-- `[...new Set(ts)]`, where `seen` is what the Set has
abbrev pub unique_from : List Text → List Text → List Text
unique_from seen [] = []
unique_from seen (t ∷ ts) =
    let rest = unique_from seen ts in
    let more = unique_from (t ∷ seen) ts in if has_text t seen then rest else t ∷ more

-- The tags after one edit.
unfoldable pub retag : String → List Text → List Text → List Text
retag mode new tags =
    if str_eq mode "replace"
    then new
    else if str_eq mode "add"
    then unique_from [] (tags ++ new)
    else if str_eq mode "remove"
    then filter (λ t. not (has_text t new)) tags
    else tags

module _ (parse : Text → Option (List Text)) (write : List Text → Text) where
  -- `domain.tags ? JSON.parse(domain.tags) : []`
  abbrev pub tags_of : Option Text → Option (List Text)
  tags_of none = some []
  tags_of (some []) = some []
  tags_of (some (c ∷ cs)) = parse (c ∷ cs)

  abbrev pub request_with : ℕ → Option (List Text) → List BulkEffect
  request_with id none = []
  request_with id (some tags) = sent_tags id (write tags) ∷ []

  abbrev pub request_for : String → List Text → ℕ → Option TagRow → List BulkEffect
  request_for mode new id none = []
  request_for mode new id (some d) = request_with id (Option.map (retag mode new) (tags_of d.tags))

  -- The request for one id: none where the row is not cached, or its tags are not JSON.
  unfoldable pub tag_request : String → List Text → List TagRow → ℕ → List BulkEffect
  tag_request mode new rows id = request_for mode new id (find? (λ d. d.id == id) rows)

  unfoldable pub tag_requests : String → List Text → List TagRow → List ℕ → List BulkEffect
  tag_requests mode new rows [] = []
  tag_requests mode new rows (id ∷ ids) =
      tag_request mode new rows id ++ tag_requests mode new rows ids

  -- `submitBulkTags`; a request that fails changes nothing of what follows.
  unfoldable pub submit_bulk_tags : String → Text → List TagRow → List ℕ → List BulkEffect
  submit_bulk_tags mode raw rows ids =
      let new = parse_tags raw in
      if no_tags new && not (str_eq mode "remove")
      then []
      else tag_requests mode new rows ids
        ++ tags_updated (length ids)
          ∷ dialog_closed
          ∷ tags_logged mode (length ids)
          ∷ list_reloaded
          ∷ []

-- `domain.notes ? domain.notes + '\n' + text : text`
abbrev pub with_note : Text → Option Text → Text
with_note text none = text
with_note text (some []) = text
with_note text (some (c ∷ cs)) = (c ∷ cs) ++ 10 ∷ text

unfoldable pub note_requests : Text → List TagRow → List ℕ → List BulkEffect
note_requests text rows [] = []
note_requests text rows (id ∷ ids) =
    let rest = note_requests text rows ids in
    elim (find? (λ d. d.id == id) rows) [
      | none ↦ rest
      | some d ↦ sent_notes id (with_note text d.notes) ∷ rest
    ]

-- `submitBulkNotes`; `sanitize` is `sanitizeInput`, the serialization of a text node.
unfoldable pub submit_bulk_notes : (Text → Text) → Text → List TagRow → List ℕ → List BulkEffect
submit_bulk_notes sanitize raw rows ids =
    let text = sanitize (trim raw) in
    if is_empty_text text
    then []
    else note_requests text rows ids
      ++ notes_added (length ids) ∷ dialog_closed ∷ notes_logged (length ids) ∷ list_reloaded ∷ []
