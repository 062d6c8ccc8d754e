-- ===== src/Users/Laws.antt =====
-- The filters of the users, and what a toggle changes.
use domain_ssl_checker.Base.{
  filter, Text, ℕ, Bool, List, if◌then◌else◌, Option, ◌≡◌, ◌≢◌, ◌+◌, length, find?, some, ◌∷◌,
  codes, ◌==◌, [], text_eq, arith, refl, false, true, text_eq_self, not,
}
use domain_ssl_checker.Users.{
  User, filtered_users, set_active, toggle_user_active, UserState, keeps_user, number, own_account,
}
use domain_ssl_checker.Platform.{Platform}

abbrev pub with_status : Text → UserState → UserState
with_status status s = record s { status = status }

count-split :
    (q r t : User → Bool) (us : List User)
    → ((u : User) → (if q u then 1 else 0) ≡ (if r u then 1 else 0) + (if t u then 1 else 0))
    → length (filter q us) ≡ length (filter r us) + length (filter t us)
count-split q r t [] h = omega arith
count-split q r t (u ∷ us) h = ground (arith, h u, count-split q r t us h)

-- With the search and the role as they are, the users that the status "active" leaves and those
-- that "inactive" leaves are together as many as those that "all" leaves.
pub filtered_users_by_status :
    (p : Platform) (s : UserState)
    → length (filtered_users p (with_status (codes "all") s))
      ≡ length (filtered_users p (with_status (codes "active") s))
        + length (filtered_users p (with_status (codes "inactive") s))
unfolding filtered_users keeps_user
filtered_users_by_status p s = count-split _ _ _ s.cache (λ u. ground arith)

abbrev pub find_user : ℕ → List User → Option User
find_user id us = find? (λ u. u.id == id) us

find_user-set_active :
    (id : ℕ) (b : Bool) (us : List User) (u : User)
    → find_user id us ≡ some u
    → find_user id (set_active id b us) ≡ some (record u { active = number (if b then 1 else 0) })
unfolding set_active
find_user-set_active id b [] u h = cc
find_user-set_active id b (v ∷ us) u h = ground (arith, find_user-set_active id b us u)

find_user-set_other :
    (id other : ℕ) (b : Bool) (us : List User)
    → id ≢ other
    → find_user other (set_active id b us) ≡ find_user other us
unfolding set_active
find_user-set_other id other b [] ne = refl
find_user-set_other id other b (v ∷ us) ne =
    ground (arith, ne, find_user-set_other id other b us ne)

-- A confirmed toggle of a cached user, under another name than one's own, that the server accepts
-- gives the user the opposite of the state that was shown; users of other ids are as before,
-- however the toggle ends, and all are where the server refuses. Under one's own name nothing is
-- sent, and nothing changes.
pub toggle_user_active_lem :
    (id other : ℕ) (username : Text) (currently confirmed succeeds : Bool) (s : UserState)
    (u : User)
    → find_user id s.cache ≡ some u
    → id ≢ other
    → text_eq username s.current ≡ false
    → ((t : Bool × Bool × Bool)
        → toggle_user_active id s.current t.0 t.1 t.2 s ≡ (s, own_account ∷ []))
      × (find_user id (toggle_user_active id username currently true true s).0.cache
          ≡ some (record u { active = number (if currently then 0 else 1) }))
      × (find_user other (toggle_user_active id username currently confirmed succeeds s).0.cache
          ≡ find_user other s.cache)
      × ((toggle_user_active id username currently true false s).0 ≡ s)
unfolding toggle_user_active
toggle_user_active_lem id other username currently confirmed succeeds s u found ne foreign = (
  λ t. rw text_eq_self refl,
  ground (arith, foreign, find_user-set_active id (not currently) s.cache u found),
  ground (arith, foreign, find_user-set_other id other (not currently) s.cache ne),
  rw foreign refl,
)
