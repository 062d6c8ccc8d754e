-- ===== src/Users.antt =====
-- The list of users: `filteredUsers`, `clearUserFilters` and `toggleUserActive`.
pub mod Laws
pub mod Load
use domain_ssl_checker.Platform.{Platform}
use domain_ssl_checker.Base.{
  filter, ℕ, Bool, List, Text, [], not, Option, includes, text_or, codes, ◌∷◌, if◌then◌else◌, ◌==◌,
  ◌||◌, truthy, text_eq, true, some, ◌&&◌, false,
}

-- The values of `is_active`, from the database or from JSON.
pub data Active : Type 0 where
  number : ℕ → Active
  boolean : Bool → Active
  missing : Active

-- `u.is_active !== 0 && u.is_active !== false`
abbrev pub is_active : Active → Bool
is_active (number n) = not (n == 0)
is_active (boolean b) = b
is_active missing = true

-- A row of `/api/users`.
pub record User : Type 0 where
  pub id : ℕ
  pub username : Option Text
  pub email : Option Text
  pub role : Option Text
  pub active : Active

-- `_usersCache`, `_userFilters` and `_currentUsername`
pub record UserState : Type 0 where
  pub cache : List User
  pub search : Text
  pub role : Text
  pub status : Text
  pub current : Text

pub data UserEffect : Type 0 where
  -- "You cannot change your own account status"
  own_account : UserEffect
  -- `PUT /api/users/id` with `is_active`
  put_active : ℕ → Bool → UserEffect
  -- The list is drawn again, and asked for again.
  rendered reloaded_users : UserEffect
  -- The toast with the new state, or with the error.
  changed : Text → Bool → UserEffect
  failed : UserEffect

module _ (p : Platform) where
  abbrev pub names_query : Text → User → Bool
  names_query q u =
      includes (p.lower (text_or u.username [])) q || includes (p.lower (text_or u.email [])) q

  -- The body of the filter, its early returns in order.
  unfoldable pub keeps_user : UserState → User → Bool
  keeps_user s u =
      let q = p.lower s.search in
      let role = text_or u.role (codes "admin") in
      if truthy (some q) && not (names_query q u)
      then false
      else if not (text_eq s.role (codes "all")) && not (text_eq role s.role)
      then false
      else if text_eq s.status (codes "active") && not (is_active u.active)
      then false
      else if text_eq s.status (codes "inactive") && is_active u.active
      then false
      else true

  unfoldable pub filtered_users : UserState → List User
  filtered_users s = filter (keeps_user s) s.cache

unfoldable pub clear_user_filters : UserState → UserState
clear_user_filters s = record s { search = []; role = codes "all"; status = codes "all" }

-- `const user = _usersCache.find(u => u.id === id); if (user) user.is_active = newActive ? 1 : 0;`
unfoldable pub set_active : ℕ → Bool → List User → List User
set_active id b [] = []
set_active id b (u ∷ us) =
    let rest = set_active id b us in
    if u.id == id then record u { active = number (if b then 1 else 0) } ∷ us else u ∷ rest

-- `confirmed` is the answer of the dialog, `succeeds` that of the server.
unfoldable pub toggle_user_active :
    ℕ → Text → Bool → Bool → Bool → UserState → UserState × List UserEffect
toggle_user_active id username currently confirmed succeeds s =
    if text_eq username s.current
    then (s, own_account ∷ [])
    else if not confirmed
    then (s, [])
    else if succeeds
    then (
      record s { cache = set_active id (not currently) s.cache },
      put_active id (not currently)
          ∷ rendered
          ∷ changed username (not currently)
          ∷ reloaded_users
          ∷ [],
    )
    else (s, put_active id (not currently) ∷ failed ∷ [])
