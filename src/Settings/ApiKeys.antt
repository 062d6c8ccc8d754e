-- ===== src/Settings/ApiKeys.antt =====
-- The API keys of the settings: `loadApiKeys`, `renderApiKeys`, the button that revokes the checked keys,
-- and the buttons that make and revoke one.
pub mod Laws
use domain_ssl_checker.Base.{
  ℕ, Text, Option, Bool, List, true, false, some, none, [], ◌∷◌, ◌==◌, ◌||◌, ◌++◌, not, filter, any,
  if◌then◌else◌, truthy, text_or, trim, length, map,
}

-- A row of `/api/api-keys`
pub record ApiKeyRow : Type 0 where
  pub id : ℕ
  pub name : Option Text
  pub key_masked : Option Text

-- What `api-keys-list` shows: with the rows goes the new key above them.
pub data KeyList : Type 0 where
  loading_keys load_failed : KeyList
  key_rows : Option Text → List ApiKeyRow → KeyList

pub record ApiKeyState : Type 0 where
  -- `_apiKeys` and `_newApiKey`
  pub keys : List ApiKeyRow
  pub new_key : Option Text
  pub shown : KeyList
  -- The boxes that are checked, and the number on `btn-bulk-revoke` where it is shown
  pub checked : List ℕ
  pub bulk_button : Option ℕ

pub data ApiKeyEffect : Type 0 where
  -- `GET /api/api-keys`, `POST /api/api-keys`, `DELETE /api/api-keys/id`, `POST /api/api-keys/bulk-revoke`
  sent_load : ApiKeyEffect
  sent_create : Text → ApiKeyEffect
  sent_revoke : ℕ → ApiKeyEffect
  sent_bulk_revoke : List ℕ → ApiKeyEffect
  -- The toasts
  key_generated key_revoked request_failed none_checked : ApiKeyEffect
  keys_revoked : ℕ → ApiKeyEffect

abbrev pub rows_shown : KeyList → List ApiKeyRow
rows_shown loading_keys = []
rows_shown load_failed = []
rows_shown (key_rows new ks) = ks

-- The checked boxes of the list, in its order
abbrev pub checked_ids : ApiKeyState → List ℕ
checked_ids s = filter (λ id. any (λ x. x == id) s.checked) (map (λ k. k.id) (rows_shown s.shown))

-- `updateBulkRevokeBtn`
unfoldable pub update_bulk_revoke : ApiKeyState → ApiKeyState
update_bulk_revoke s = record s {
  bulk_button = if length (checked_ids s) == 0 then none else some (length (checked_ids s));
}

-- `_newApiKey ? … : ''`
abbrev pub shown_key : Option Text → Option Text
shown_key k = if truthy k then k else none

-- `renderApiKeys`; the boxes of the new rows are not checked.
unfoldable pub render_api_keys : ApiKeyState → ApiKeyState
unfolding update_bulk_revoke
render_api_keys s =
    update_bulk_revoke (record s { shown = key_rows (shown_key s.new_key) s.keys; checked = [] })

abbrev pub no_keys : List ApiKeyRow → Bool
no_keys [] = true
no_keys (k ∷ ks) = false

-- `loadApiKeys`, and its answer: `none` where it failed
unfoldable pub load_api_keys : Bool → ApiKeyState → ApiKeyState
load_api_keys force s =
    if force || no_keys s.keys then record s { shown = loading_keys; checked = [] } else s

unfoldable pub receive_keys : Option (List ApiKeyRow) → ApiKeyState → ApiKeyState
receive_keys none s = record s { shown = load_failed; checked = [] }
receive_keys (some ks) s = render_api_keys (record s { keys = ks })

-- A click on the box of a key
abbrev pub toggled_key : ℕ → List ℕ → List ℕ
toggled_key id ids = if any (λ x. x == id) ids then filter (λ x. not (x == id)) ids else id ∷ ids

unfoldable pub check_key : ℕ → ApiKeyState → ApiKeyState
check_key id s = update_bulk_revoke (record s { checked = toggled_key id s.checked })

-- `generate-apikey`: the name, `none` where the question was cancelled, the name of a blank one, and the
-- key that the server answers.
unfoldable pub generate_key :
    Option Text → Text → Option Text → ApiKeyState → ApiKeyState × List ApiKeyEffect
generate_key none blank answer s = (s, [])
generate_key (some name) blank none s =
    (s, sent_create (text_or (some (trim name)) blank) ∷ request_failed ∷ [])
generate_key (some name) blank (some key) s = (
  load_api_keys false (record s { new_key = some key }),
  sent_create (text_or (some (trim name)) blank) ∷ sent_load ∷ key_generated ∷ [],
)

-- `revoke-apikey`
unfoldable pub revoke_key : Bool → Bool → ℕ → ApiKeyState → ApiKeyState × List ApiKeyEffect
revoke_key confirmed ok id s =
    if not confirmed
    then (s, [])
    else if ok
    then (load_api_keys false s, sent_revoke id ∷ sent_load ∷ key_revoked ∷ [])
    else (s, sent_revoke id ∷ request_failed ∷ [])

-- `bulkRevokeApiKeys`
unfoldable pub bulk_revoke_keys : Bool → Bool → ApiKeyState → ApiKeyState × List ApiKeyEffect
bulk_revoke_keys confirmed ok s =
    if length (checked_ids s) == 0
    then (s, none_checked ∷ [])
    else if not confirmed
    then (s, [])
    else if ok
    then (
      load_api_keys false s,
      sent_bulk_revoke (checked_ids s) ∷ sent_load ∷ keys_revoked (length (checked_ids s)) ∷ [],
    )
    else (s, sent_bulk_revoke (checked_ids s) ∷ request_failed ∷ [])
