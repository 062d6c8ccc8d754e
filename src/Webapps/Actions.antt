-- ===== src/Webapps/Actions.antt =====
-- The actions of the list of web apps: the checks, the deletes, the pause and the bulk edit of the
-- handler of `data-action`. `accepts` says whether the server takes a request, and `write` is
-- `JSON.stringify`.
pub mod Laws
mod Tests
use domain_ssl_checker.Forms.Numbers.{parse_int, is_blank}
use domain_ssl_checker.Base.{
  Option, ℕ, List, Text, Bool, [], if◌then◌else◌, false, ℤ, true, ◌∷◌, not, ◌||◌, find?, filter,
  none, ◌&&◌, map, ◌++◌, length, ◌==◌, trim, some, all, split,
}

-- What the bulk edit sends of a row; a number that is NaN is sent as null.
pub record BulkPayload : Type 0 where
  pub check_interval : Option (Option ℤ)
  pub timeout : Option (Option ℤ)
  pub is_active : Option Bool
  pub tags : Option Text

pub data WebappAction : Type 0 where
  button_busy button_free : WebappAction
  -- `POST /api/webapps/check-all` and `POST /api/webapps/id/check`
  sent_check_all : WebappAction
  sent_check sent_delete : ℕ → WebappAction
  -- `POST /api/webapps/bulk-check` and `POST /api/webapps/bulk-delete`
  sent_bulk_check sent_bulk_delete : List ℕ → WebappAction
  -- `PUT /api/webapps/id`
  sent_active : ℕ → Bool → WebappAction
  sent_edit : ℕ → BulkPayload → WebappAction
  -- The toasts
  all_checked webapp_deleted webapp_resumed webapp_paused no_changes : WebappAction
  checked_many deleted_many updated_many : ℕ → WebappAction
  request_failed : WebappAction
  webapps_reloaded : WebappAction
  -- The card shows for a second that its status may have changed.
  card_marked : ℕ → WebappAction

-- `_selectedWebapps`, in the order of its insertions, and whether the dialog of the bulk edit is open
pub record WebappActionState : Type 0 where
  pub selected : List ℕ
  pub edit_open : Bool

-- What the actions read of a row of `_webappsCache`: `is_active` is 0 or false.
pub record WebappRow : Type 0 where
  pub id : ℕ
  pub is_paused : Bool

-- The form of the bulk edit.
pub record BulkEditForm : Type 0 where
  pub check_interval : Text
  pub timeout : Text
  pub make_active : Bool
  pub make_inactive : Bool
  pub tags : Text

abbrev pub none_selected : List ℕ → Bool
none_selected [] = true
none_selected (id ∷ ids) = false

-- `check-all-webapps` and `webapp-check-now`
unfoldable pub check_all_webapps : Bool → List WebappAction
check_all_webapps ok =
    button_busy
    ∷ sent_check_all
    ∷ ((if ok then webapps_reloaded ∷ all_checked ∷ [] else request_failed ∷ [])
        ++ button_free ∷ [])

unfoldable pub check_webapp_now : Bool → ℕ → List WebappAction
check_webapp_now ok id =
    button_busy
    ∷ sent_check id
    ∷ (if ok
        then webapps_reloaded ∷ button_free ∷ card_marked id ∷ []
        else request_failed ∷ button_free ∷ [])

-- `webapp-delete`, after the question
unfoldable pub delete_webapp : Bool → Bool → ℕ → List WebappAction
delete_webapp confirmed ok id =
    if not confirmed
    then []
    else sent_delete id
      ∷ (if ok then webapps_reloaded ∷ webapp_deleted ∷ [] else request_failed ∷ [])

abbrev pub without_selection : WebappActionState → WebappActionState
without_selection s = record s { selected = [] }

-- `webapp-bulk-check` and `webapp-bulk-delete`
unfoldable pub bulk_check_webapps : Bool → WebappActionState → WebappActionState × List WebappAction
bulk_check_webapps ok s =
    if none_selected s.selected
    then (s, [])
    else if ok
    then (
      without_selection s,
      sent_bulk_check s.selected ∷ webapps_reloaded ∷ checked_many (length s.selected) ∷ [],
    )
    else (s, sent_bulk_check s.selected ∷ request_failed ∷ [])

unfoldable pub bulk_delete_webapps :
    Bool → Bool → WebappActionState → WebappActionState × List WebappAction
bulk_delete_webapps confirmed ok s =
    if none_selected s.selected || not confirmed
    then (s, [])
    else if ok
    then (
      without_selection s,
      sent_bulk_delete s.selected ∷ webapps_reloaded ∷ deleted_many (length s.selected) ∷ [],
    )
    else (s, sent_bulk_delete s.selected ∷ request_failed ∷ [])

-- `webapp-toggle-active`
unfoldable pub toggle_webapp_active : List WebappRow → Bool → ℕ → List WebappAction
toggle_webapp_active rows ok id = elim (find? (λ a. a.id == id) rows) [
  | none ↦ []
  | some a ↦
      sent_active id a.is_paused
      ∷ (if ok
          then webapps_reloaded ∷ (if a.is_paused then webapp_resumed else webapp_paused) ∷ []
          else request_failed ∷ [])
]

-- `webapp-bulk-edit` and `close-webapp-bulk-edit`
unfoldable pub open_bulk_edit : WebappActionState → WebappActionState
open_bulk_edit s = if none_selected s.selected then s else record s { edit_open = true }

unfoldable pub close_bulk_edit : WebappActionState → WebappActionState
close_bulk_edit s = record s { edit_open = false }

-- `tags.split(',').map(trim).filter(Boolean)`
abbrev pub tag_list : Text → List Text
tag_list t = filter (λ s. not (is_blank s)) (map trim (split b',' t))

module _ (write : List Text → Text) where
  unfoldable pub payload_of : BulkEditForm → BulkPayload
  payload_of f = record {
    check_interval = if is_blank f.check_interval then none else some (parse_int f.check_interval);
    timeout = if is_blank (trim f.timeout) then none else some (parse_int (trim f.timeout));
    is_active = if f.make_active then some true else if f.make_inactive then some false else none;
    tags = if is_blank (trim f.tags) then none else some (write (tag_list (trim f.tags)));
  }

  abbrev pub is_absent {ℓ} : {A : Type ℓ} → Option A → Bool
  is_absent none = true
  is_absent (some a) = false

  -- `Object.keys(payload).length === 0`
  abbrev pub is_empty_payload : BulkPayload → Bool
  is_empty_payload p =
      is_absent p.check_interval && is_absent p.timeout && is_absent p.is_active && is_absent p.tags

  -- `submit-webapp-bulk-edit`. All requests are sent; the first that fails takes the way of the error.
  unfoldable pub submit_bulk_edit :
      (ℕ → Bool) → BulkEditForm → WebappActionState → WebappActionState × List WebappAction
  submit_bulk_edit accepts f s =
      let p = payload_of f in
      let sent = map (λ id. sent_edit id p) s.selected in
      if none_selected s.selected
      then (s, [])
      else if is_empty_payload p
      then (s, no_changes ∷ [])
      else if all accepts s.selected
      then (
        record { selected = []; edit_open = false },
        sent ++ webapps_reloaded ∷ updated_many (length s.selected) ∷ [],
      )
      else (s, sent ++ request_failed ∷ [])
