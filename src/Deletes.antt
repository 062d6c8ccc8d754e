-- ===== src/Deletes.antt =====
-- The bulk delete of a domain list: `bulkAction(type, 'delete')`.
pub mod Laws
mod Tests
use domain_ssl_checker.Selection.{has}
use domain_ssl_checker.Domains.{Domain}
use domain_ssl_checker.Checks.{is_nil}
use domain_ssl_checker.Base.{
  filter, List, ℕ, String, Bool, if◌then◌else◌, ◌∷◌, ◌==◌, not, [], str_eq, length, map, ◌++◌,
}

-- `_cachedDomains[type]` and the selection.
pub record DeleteState : Type 0 where
  pub cached : List Domain
  pub selected : List ℕ

pub data DeleteEffect : Type 0 where
  -- "Admin access required"
  not_admin : DeleteEffect
  -- `DELETE /api/domains/id`
  sent_delete : ℕ → DeleteEffect
  -- `clearDomainsCache`, `updateBulkToolbar`, `renderDomains` and `renderPagination`
  list_redrawn : DeleteEffect
  -- "n domains deleted", and "n deleted, m failed"
  all_deleted : ℕ → DeleteEffect
  some_failed : ℕ → ℕ → DeleteEffect
  -- `POST /api/logs` with the number deleted
  logged : ℕ → DeleteEffect

-- `failedIds` after the loop, where `succeeds` is the server's answer on each id.
unfoldable pub failed_ids : (ℕ → Bool) → List ℕ → List ℕ
failed_ids succeeds [] = []
failed_ids succeeds (id ∷ ids) =
    let rest = failed_ids succeeds ids in if succeeds id then rest else id ∷ rest

-- `ids.filter(id => !failedIds.includes(id))`
unfoldable pub success_ids : (ℕ → Bool) → List ℕ → List ℕ
success_ids succeeds ids = filter (λ id. not (has id (failed_ids succeeds ids))) ids

-- The last toast.
abbrev pub delete_toast : ℕ → ℕ → ℕ → DeleteEffect
delete_toast n ok failed = if failed == 0 then all_deleted n else some_failed ok failed

-- The rows, the selection and the effects after the loop.
unfoldable pub delete_ids : (ℕ → Bool) → List ℕ → DeleteState → DeleteState × List DeleteEffect
delete_ids succeeds ids s =
    let ok = success_ids succeeds ids in
    (
      record { cached = filter (λ d. not (has d.id ok)) s.cached; selected = [] },
      map sent_delete ids
          ++ list_redrawn
            ∷ delete_toast (length ids) (length ok) (length (failed_ids succeeds ids))
            ∷ logged (length ok)
            ∷ [],
    )

-- `confirmed` is the answer of the dialog.
unfoldable pub bulk_delete :
    String → Bool → (ℕ → Bool) → DeleteState → DeleteState × List DeleteEffect
bulk_delete role confirmed succeeds s =
    if not (str_eq role "admin")
    then (s, not_admin ∷ [])
    else if is_nil s.selected
    then (s, [])
    else if not confirmed
    then (s, [])
    else delete_ids succeeds s.selected s
