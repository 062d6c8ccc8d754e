-- ===== src/Users/Load.antt =====
-- `loadUsers` and `refreshUsers`: the load of the users, cut at its requests.
use domain_ssl_checker.Users.{User}
use domain_ssl_checker.Base.{
  Bool, List, Option, true, false, not, if◌then◌else◌, ◌&&◌, none, some, [], ◌∷◌, ◌≡◌, refl,
}

pub data UserTable : Type 0 where
  -- "Loading users..."
  loading_users : UserTable
  -- `renderUsers`, of these users
  rendered_users : List User → UserTable

pub record UserLoad : Type 0 where
  -- `_usersLoaded` and `_usersCache`
  pub loaded : Bool
  pub cache : List User
  pub table : UserTable

pub data UserLoadEffect : Type 0 where
  -- `GET /api/users`, and the toast of an error
  asked_users load_failed : UserLoadEffect

-- The answer of the server, `none` where it failed
unfoldable pub receive_users : Option (List User) → UserLoad → UserLoad × List UserLoadEffect
receive_users none s = (s, load_failed ∷ [])
receive_users (some us) s = (record { loaded = true; cache = us; table = rendered_users us }, [])

-- What is done before the answer.
unfoldable pub load_users : Bool → UserLoad → UserLoad × List UserLoadEffect
load_users force s =
    if not force && s.loaded
    then (s, [])
    else (record s { loaded = false; table = loading_users }, asked_users ∷ [])

unfoldable pub refresh_users : UserLoad → UserLoad × List UserLoadEffect
unfolding load_users
refresh_users s = load_users true s

-- After a failed refresh the table still says that it is loading, and the users that were there are still
-- kept; the next load without force asks again, and its answer is shown.
pub refresh_fails :
    (us : List User) (s : UserLoad)
    → let failed = (receive_users none (refresh_users s).0).0 in
      let again = load_users false failed in
      (failed.table ≡ loading_users)
      × (failed.cache ≡ s.cache)
      × (again.1 ≡ asked_users ∷ [])
      × ((receive_users (some us) again.0).0.table ≡ rendered_users us)
unfolding receive_users load_users refresh_users
refresh_fails us s = (refl, refl, refl, refl)
