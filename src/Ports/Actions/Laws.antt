-- ===== src/Ports/Actions/Laws.antt =====
-- A bulk delete of ports, whatever the server does.
use domain_ssl_checker.Ports.Actions.{
  PortActionState, PortEffect, sent_delete, checks_deleted, bulk_delete_ports, sent_load,
}
use mathlib.Core.List.{append-nil}
use domain_ssl_checker.Base.{
  List, Bool, ℕ, ◌≡◌, ◌∷◌, map, if◌then◌else◌, [], ◌++◌, ap, refl, ◌∙◌, true, false,
}

abbrev pub deletes_of : List PortEffect → List ℕ
deletes_of [] = []
deletes_of (sent_delete id ∷ es) = id ∷ deletes_of es
deletes_of (e ∷ es) = deletes_of es

deletes-map :
    (ids : List ℕ) (es : List PortEffect)
    → deletes_of (map sent_delete ids ++ es) ≡ ids ++ deletes_of es
deletes-map [] es = refl
deletes-map (id ∷ ids) es = ap (id ∷◌) (deletes-map ids es)

bulk_delete_of :
    (confirmed : Bool) (s : PortActionState) (ids : List ℕ)
    → s.selected ≡ ids
    → (deletes_of (bulk_delete_ports confirmed s).1 ≡ (if confirmed then s.selected else []))
      × ((bulk_delete_ports confirmed s).0.selected ≡ (if confirmed then [] else s.selected))
unfolding bulk_delete_ports
bulk_delete_of true s [] h = rw h (refl, refl)
bulk_delete_of false s [] h = rw h (refl, refl)
bulk_delete_of true s (id ∷ ids) h =
    rw h (deletes-map (id ∷ ids) (checks_deleted ∷ sent_load ∷ []) ∙ append-nil (id ∷ ids), refl)
bulk_delete_of false s (id ∷ ids) h = rw h (refl, refl)

-- A confirmed bulk delete sends one request for each selected port check and empties the selection; one
-- that is not confirmed sends nothing and keeps it.
pub bulk_delete_ports_lem :
    (confirmed : Bool) (s : PortActionState)
    → (deletes_of (bulk_delete_ports confirmed s).1 ≡ (if confirmed then s.selected else []))
      × ((bulk_delete_ports confirmed s).0.selected ≡ (if confirmed then [] else s.selected))
bulk_delete_ports_lem confirmed s = bulk_delete_of confirmed s s.selected refl
