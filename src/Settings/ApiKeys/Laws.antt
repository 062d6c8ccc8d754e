-- ===== src/Settings/ApiKeys/Laws.antt =====
-- What happens to the API keys after one was made.
use domain_ssl_checker.Settings.ApiKeys.{
  ApiKeyState, ApiKeyRow, key_rows, load_api_keys, receive_keys, check_key, revoke_key,
  bulk_revoke_keys, render_api_keys, update_bulk_revoke,
}
use domain_ssl_checker.Base.{ℕ, Text, Option, Bool, List, some, none, ◌≡◌, ◌∷◌, refl, arith}

-- The states that come after a state without another key being made.
pub data KeysAfter (start : ApiKeyState) : ApiKeyState → Type 0 where
  same : KeysAfter start start
  loads :
      {s : ApiKeyState} (force : Bool) → KeysAfter start s → KeysAfter start (load_api_keys force s)
  answered :
      {s : ApiKeyState} (ks : Option (List ApiKeyRow))
      → KeysAfter start s
      → KeysAfter start (receive_keys ks s)
  checks : {s : ApiKeyState} (id : ℕ) → KeysAfter start s → KeysAfter start (check_key id s)
  revokes :
      {s : ApiKeyState} (confirmed ok : Bool) (id : ℕ)
      → KeysAfter start s
      → KeysAfter start (revoke_key confirmed ok id s).0
  bulk_revokes :
      {s : ApiKeyState} (confirmed ok : Bool)
      → KeysAfter start s
      → KeysAfter start (bulk_revoke_keys confirmed ok s).0

-- Whatever is loaded, checked and revoked later, the new key is kept.
pub new_key_stays : {start s : ApiKeyState} → KeysAfter start s → s.new_key ≡ start.new_key
unfolding load_api_keys receive_keys check_key revoke_key bulk_revoke_keys render_api_keys
    update_bulk_revoke
new_key_stays same = refl
new_key_stays (loads force h) = ground (arith, new_key_stays h)
new_key_stays (answered none h) = new_key_stays h
new_key_stays (answered (some ks) h) = new_key_stays h
new_key_stays (checks id h) = new_key_stays h
new_key_stays (revokes confirmed ok id h) = ground (arith, new_key_stays h)
new_key_stays (bulk_revokes confirmed ok h) = ground (arith, new_key_stays h)

-- However long after a key was made, each answer of the server shows it above the rows.
pub new_key_shown :
    {start s : ApiKeyState} (c : ℕ) (cs : Text) (ks : List ApiKeyRow)
    → KeysAfter start s
    → start.new_key ≡ some (c ∷ cs)
    → (receive_keys (some ks) s).shown ≡ key_rows (some (c ∷ cs)) ks
unfolding receive_keys render_api_keys update_bulk_revoke
new_key_shown c cs ks h e = rw (new_key_stays h) (rw e refl)
