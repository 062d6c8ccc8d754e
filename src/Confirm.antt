-- ===== src/Confirm.antt =====
-- The dialog that confirms a delete: `confirmDelete`, its input, the click on its button, and
-- `closeConfirmModal`.
pub mod Laws
mod Tests
use domain_ssl_checker.Domains.{Domain}
use domain_ssl_checker.Base.{
  ℕ, Option, Text, none, Bool, String, some, false, List, if◌then◌else◌, not, ◌∷◌, ◌++◌, find?, [],
  str_eq, text_eq, ◌==◌, ◌&&◌, true,
}

pub record Target : Type 0 where
  pub id : ℕ
  pub name : Text

pub record ConfirmState : Type 0 where
  -- `_confirmDeleteTarget` and `_confirmDeleteType`
  pub target : Option Target
  pub type : Option String
  -- `btn.disabled`, and whether the row with the input is shown
  pub disabled : Bool
  pub asks_name : Bool
  pub is_open : Bool
  -- `_cachedDomains[type]` of the open view
  pub cached : List Domain

pub data ConfirmEffect : Type 0 where
  own_account : ConfirmEffect
  sent_user_delete sent_domain_delete : ℕ → ConfirmEffect
  -- `clearDomainsCache`, `renderDomains` and `renderPagination`
  list_redrawn : ConfirmEffect
  user_deleted domain_deleted : Text → ConfirmEffect
  delete_failed : ConfirmEffect
  users_reloaded : ConfirmEffect
  -- `POST /api/logs` with the message "Deleted type: name"
  logged : String → Text → ConfirmEffect

abbrev pub type_or_domain : Option String → String
type_or_domain none = "domain"
type_or_domain (some t) = if str_eq t "" then "domain" else t

unfoldable pub confirm_delete :
    ℕ → Text → Option String → Text → ConfirmState → ConfirmState × List ConfirmEffect
confirm_delete id name type current s =
    if str_eq (type_or_domain type) "user" && text_eq name current then (s, own_account ∷ []) else (
      record s {
        target = some (record { id = id; name = name });
        type = some (type_or_domain type);
        disabled = str_eq (type_or_domain type) "user";
        asks_name = str_eq (type_or_domain type) "user";
        is_open = true;
      },
      [],
    )

-- `input.oninput`: what the input of a user's name does.
unfoldable pub type_name : Text → ConfirmState → ConfirmState
type_name value s = elim s.target [
  | none ↦ s
  | some t ↦ record s { disabled = not (text_eq value t.name) }
]

unfoldable pub close_confirm : ConfirmState → ConfirmState
close_confirm s = record s { target = none; type = none; is_open = false }

-- `cached.splice(idx, 1)` at the first row with the id
unfoldable pub splice_out : ℕ → List Domain → List Domain
splice_out id [] = []
splice_out id (d ∷ ds) = let rest = splice_out id ds in if d.id == id then ds else d ∷ rest

-- `[..._cachedDomains[type], removed]`
abbrev pub put_back : Option Domain → List Domain → List Domain
put_back none ds = ds
put_back (some d) ds = ds ++ d ∷ []

-- A domain's delete; `succeeds` is the server's answer.
unfoldable pub delete_domain : Bool → Target → ConfirmState → ConfirmState × List ConfirmEffect
delete_domain succeeds t s =
    let removed = find? (λ d. d.id == t.id) s.cached in
    let rest = splice_out t.id s.cached in
    if succeeds
    then (
      record s { cached = rest },
      list_redrawn ∷ sent_domain_delete t.id ∷ domain_deleted t.name ∷ [],
    )
    else (
      record s { cached = put_back removed rest },
      list_redrawn ∷ sent_domain_delete t.id ∷ delete_failed ∷ list_redrawn ∷ [],
    )

-- A user's delete; its failure leaves the `try` before the log.
unfoldable pub delete_user : Bool → Target → ConfirmState → ConfirmState × List ConfirmEffect
delete_user succeeds t s = (
  s,
  sent_user_delete t.id
      ∷ (if succeeds
          then user_deleted t.name ∷ users_reloaded ∷ logged "user" t.name ∷ []
          else delete_failed ∷ []),
)

-- The click on the button, with the type that was set.
unfoldable pub delete_target :
    Bool → String → Target → ConfirmState → ConfirmState × List ConfirmEffect
delete_target succeeds type t s =
    if str_eq type "user"
    then delete_user succeeds t s
    else let (s', es) = delete_domain succeeds t s in (s', es ++ logged type t.name ∷ [])

unfoldable pub click_delete : Bool → ConfirmState → ConfirmState × List ConfirmEffect
click_delete succeeds s = elim s.target [
  | none ↦ (s, [])
  | some t ↦
      let (s', es) = delete_target succeeds (type_or_domain s.type) t s in
      (close_confirm (record s' { disabled = false }), es)
]
