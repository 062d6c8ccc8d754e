-- ===== src/Templates/Laws.antt =====
-- What the tabs of the templates show.
use domain_ssl_checker.Base.{
  ◌∷◌, arith, str_eq_iff, ◌∙◌, sym, ap, [], String, List, true, ◌≡◌, if◌then◌else◌, str_eq,
  Bool-cases, false, inl, refl, inr,
}
use domain_ssl_checker.Templates.{
  render_tab, Template, submit_template, change_template, template_of, TemplateState, put_in,
}

template_of-put_in :
    (name other : String) (t : Template) (ts : List (String × Template))
    → template_of other (put_in name t ts) ≡ (if str_eq name other then t else template_of other ts)
template_of-put_in name other t [] = elim (Bool-cases (str_eq name other)) [
  | inl e ↦ rw e refl
  | inr e ↦ rw e refl
]
template_of-put_in name other t ((k, u) ∷ ts) = elim (Bool-cases (str_eq k name)) [
  | inl same ↦
      rw (same, ap (λ x. str_eq x other) ((str_eq_iff k name).0 same))
        (elim (Bool-cases (str_eq name other)) [ inl e ↦ rw e refl | inr e ↦ rw e refl ])
  | inr differ ↦ elim (Bool-cases (str_eq k other)) [
    | inl e ↦ rw (differ, e, not_named e differ) refl
    | inr e ↦ rw (differ, e) (template_of-put_in name other t ts)
  ]
]
  where
    not_named : str_eq k other ≡ true → str_eq k name ≡ false → str_eq name other ≡ false
    not_named e differ = elim (Bool-cases (str_eq name other)) [
      | inl f ↦ ground (
        arith,
        differ,
        (str_eq_iff k name).1 ((str_eq_iff k other).0 e ∙ sym ((str_eq_iff name other).0 f)),
      )
      | inr f ↦ f
    ]

-- After a save that the server accepts, each tab shows what it would have shown before, and the tab
-- of the template that was saved shows what was saved; a change of the form that is not saved is
-- lost by a change of the tab.
pub render_tab-submit :
    (name : String) (t : Template) (s : TemplateState)
    → ((render_tab name (submit_template true (change_template t s)).0).form
        ≡ (if str_eq s.current name then t else (render_tab name s).form))
      × ((render_tab name (change_template t s)).form ≡ (render_tab name s).form)
      × ((render_tab name (change_template t s)).dirty ≡ false)
unfolding render_tab submit_template change_template
render_tab-submit name t s = (template_of-put_in s.current name t s.stored, refl, refl)
