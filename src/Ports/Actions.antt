-- ===== src/Ports/Actions.antt =====
-- The actions of the list of port checks: `loadPortChecks`, `checkSinglePort`, `checkAllPorts`,
-- `togglePortView`, the bulk actions and the handlers of the search, the sort and the page size.
pub mod Laws
use domain_ssl_checker.Ports.{PortCheck}
use domain_ssl_checker.Base.{
  ℕ, List, Option, Bool, ◌∷◌, not, if◌then◌else◌, true, [], some, map, false, none, ◌++◌,
}

pub data PortEffect : Type 0 where
  -- `GET /api/port-checks`, `POST /api/port-checks/id/check`, `DELETE /api/port-checks/id`
  sent_load : PortEffect
  sent_check sent_delete : ℕ → PortEffect
  -- The toasts
  check_completed all_completed checks_completed checks_deleted : PortEffect
  port_deleted none_selected request_failed : PortEffect
  -- `applyPortFilters`
  applied : List PortCheck → PortEffect
  -- `updatePortBulkBar`
  bar_updated : PortEffect

pub record PortActionState : Type 0 where
  -- `_selectedPorts`, `_portCache` and `_portViewMode`
  pub selected : List ℕ
  pub cached : List PortCheck
  pub cards : Bool

-- The answer of `loadPortChecks`, `none` where it fails.
unfoldable pub receive_ports :
    Option (List PortCheck) → PortActionState → PortActionState × List PortEffect
receive_ports none s = (s, request_failed ∷ [])
receive_ports (some cs) s = (record s { cached = cs }, applied cs ∷ [])

unfoldable pub check_single_port : Bool → ℕ → List PortEffect
check_single_port ok id =
    sent_check id ∷ (if ok then check_completed ∷ sent_load ∷ [] else request_failed ∷ [])

-- `checkAllPorts`; a check that fails is passed over.
unfoldable pub check_all_ports : PortActionState → List PortEffect
check_all_ports s = elim s.cached [
  | [] ↦ []
  | c ∷ cs ↦ map (λ p. sent_check p.id) (c ∷ cs) ++ all_completed ∷ sent_load ∷ []
]

unfoldable pub toggle_port_view : PortActionState → PortActionState × List PortEffect
toggle_port_view s = (record s { cards = not s.cards }, sent_load ∷ [])

-- `delete-port-check`, after the question
unfoldable pub delete_port : Bool → Bool → ℕ → List PortEffect
delete_port confirmed ok id =
    if not confirmed
    then []
    else sent_delete id ∷ (if ok then port_deleted ∷ sent_load ∷ [] else request_failed ∷ [])

abbrev pub is_none : List ℕ → Bool
is_none [] = true
is_none (id ∷ ids) = false

-- `port-bulk-check`
unfoldable pub bulk_check_ports : PortActionState → List PortEffect
bulk_check_ports s =
    if is_none s.selected
    then none_selected ∷ []
    else map sent_check s.selected ++ checks_completed ∷ sent_load ∷ []

-- `port-bulk-delete`; a delete that fails is passed over.
unfoldable pub bulk_delete_ports : Bool → PortActionState → PortActionState × List PortEffect
bulk_delete_ports confirmed s =
    if is_none s.selected
    then (s, none_selected ∷ [])
    else if not confirmed
    then (s, [])
    else (record s { selected = [] }, map sent_delete s.selected ++ checks_deleted ∷ sent_load ∷ [])

-- `port-bulk-deselect`
unfoldable pub deselect_ports : PortActionState → PortActionState × List PortEffect
deselect_ports s = (record s { selected = [] }, bar_updated ∷ sent_load ∷ [])
