-- ===== src/Confirm/Laws.antt =====
-- What a confirmed delete changes.
use mathlib.Core.List.{Perm, perm_middle, append-nil}
use mathlib.Core.List.Perm
use mathlib.Core.Path.{subst}
use domain_ssl_checker.Base.{
  String, Text, ℕ, List, Bool, any, false, find?, ◌==◌, ◌∷◌, ◌≡◌, true, some, str_eq, length, ◌&&◌,
  suc, text_eq, arith, [], ◌||◌, Bool-cases, inl, text_eq_self, sym, refl, inr, Option-cases,
}
use domain_ssl_checker.Confirm.{
  splice_out, click_delete, delete_target, delete_domain, ConfirmEffect, close_confirm, put_back,
  ConfirmState, logged, confirm_delete,
}
use domain_ssl_checker.Domains.{Domain}

abbrev pub has_log : String → Text → List ConfirmEffect → Bool
has_log type name [] = false
has_log type name (logged t n ∷ es) = str_eq t type && text_eq n name || has_log type name es
has_log type name (e ∷ es) = has_log type name es

-- The row with the id, put at the end of the others, is the list in another order.
splice_out-Perm :
    (id : ℕ) (ds : List Domain) → Perm (put_back (find? (λ d. d.id == id) ds) (splice_out id ds)) ds
unfolding splice_out
splice_out-Perm id [] = Perm.refl []
splice_out-Perm id (d ∷ ds) = elim (Bool-cases (d.id == id)) [
  | inl e ↦ rw e (
      Perm.trans (perm_middle ds [])
        (subst (λ es. Perm (d ∷ es) (d ∷ ds)) (sym (append-nil ds)) (Perm.refl (d ∷ ds))))
  | inr e ↦ rw e (elim (Option-cases (find? (λ d. d.id == id) ds)) [
    | inl n ↦ rw n (
        Perm.cons d
          (subst (λ o. Perm (put_back o (splice_out id ds)) ds) n (splice_out-Perm id ds)))
    | inr (a, q) ↦ rw q (
        Perm.cons d
          (subst (λ o. Perm (put_back o (splice_out id ds)) ds) q (splice_out-Perm id ds)))
  ])
]

-- The rest and the first row with the id, where there is one.
splice_out-length :
    (id : ℕ) (ds : List Domain)
    → any (λ d. d.id == id) ds ≡ true
    → length ds ≡ suc (length (splice_out id ds))
unfolding splice_out
splice_out-length id [] h = cc
splice_out-length id (d ∷ ds) h = ground (arith, splice_out-length id ds)

-- The dialog was opened to delete the domain of an id that the list has. After the click, a server
-- that accepts leaves one row less, and one that refuses leaves the rows that there were, though
-- maybe in another order. Either way "Deleted" is logged, and a second click does nothing.
pub click_delete_lem :
    (s : ConfirmState) (id : ℕ) (name current : Text) (ok again : Bool)
    → any (λ d. d.id == id) s.cached ≡ true
    → (length s.cached
        ≡ suc (
            length
              (click_delete true (confirm_delete id name (some "domain") current s).0).0.cached))
      × Perm
          (click_delete false (confirm_delete id name (some "domain") current s).0).0.cached
          s.cached
      × (has_log "domain" name
            (click_delete true (confirm_delete id name (some "domain") current s).0).1
          ≡ true)
      × (has_log "domain" name
            (click_delete false (confirm_delete id name (some "domain") current s).0).1
          ≡ true)
      × ((click_delete again
            (click_delete ok (confirm_delete id name (some "domain") current s).0).0).1
          ≡ [])
unfolding confirm_delete click_delete delete_target delete_domain close_confirm
click_delete_lem s id name current ok again found = (
  splice_out-length id s.cached found,
  splice_out-Perm id s.cached,
  rw (text_eq_self name) refl,
  rw (text_eq_self name) refl,
  refl,
)
