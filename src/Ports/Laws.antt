-- ===== src/Ports/Laws.antt =====
-- The counts and the pages of the ports.
use domain_ssl_checker.Base.{
  filter, Bool, codes, List, ◌&&◌, ◌+◌, length, ◌<◌, ◌≡◌, false, min, ◌≤◌, Option, not, ◌-◌, ◌*◌,
  Text, arith, length-take, ◌∷◌, length-drop, refl, [], ℕ, ◌∙◌, some, ap, Bool-cases, text_eq, inl,
  text_eq_iff, inr, none,
}
use domain_ssl_checker.Ports.{
  PortCheck, apply_port_filters, click_port_page, port_status_is, PortState, sorted_ports,
  filter_ports,
}
use domain_ssl_checker.Platform.{Platform}
use domain_ssl_checker.Webapps.{last}
use domain_ssl_checker.Webapps.Stats.{has_status}

not_both : (o : Option Text) → (has_status (codes "up") o && has_status (codes "down") o) ≡ false
not_both none = refl
not_both (some t) = elim (Bool-cases (text_eq t (codes "up"))) [
  | inl e ↦ rw (text_eq_iff t (codes "up") e) refl
  | inr e ↦ rw e refl
]

count-three :
    (q r : PortCheck → Bool) (cs : List PortCheck)
    → ((c : PortCheck) → (q c && r c) ≡ false)
    → length (filter q cs) + length (filter r cs) + length (filter (λ c. not (q c) && not (r c)) cs)
      ≡ length cs
count-three q r [] h = omega arith
count-three q r (c ∷ cs) h = ground (arith, h c, count-three q r cs h)

-- Each port check is counted on exactly one of the chips "up", "down" and "unknown".
pub apply_port_filters-counts :
    (p : Platform) (s : PortState)
    → (apply_port_filters p s).count_up
        + (apply_port_filters p s).count_down
        + (apply_port_filters p s).count_unknown
      ≡ (apply_port_filters p s).count_all
unfolding apply_port_filters
apply_port_filters-counts p s =
    count-three (port_status_is (codes "up")) (port_status_is (codes "down")) s.cached
      (λ c. not_both c.status)

length-rows :
    (p : Platform) (s : PortState)
    → length (apply_port_filters p s).rows
      ≡ min s.size ((apply_port_filters p s).count - (s.page - 1) * s.size)
unfolding apply_port_filters
length-rows p s = rw (length-take, length-drop) (omega arith)

sorted_ports-page :
    (p : Platform) (s : PortState) (n : ℕ)
    → sorted_ports p (record s { page = n }) ≡ sorted_ports p s
unfolding sorted_ports filter_ports
sorted_ports-page p s n = refl

count-sorted :
    (p : Platform) (s : PortState) (n : ℕ)
    → (apply_port_filters p (record s { page = n })).count ≡ length (sorted_ports p s)
unfolding apply_port_filters
count-sorted p s n = ap length (sorted_ports-page p s n)

-- The button of the last page asks for page 9999 and shows no row, while rows are left, unless they
-- fill 9998 pages.
pub click_port_page_last :
    (p : Platform) (s : PortState)
    → 0 < length (sorted_ports p s)
    → length (sorted_ports p s) ≤ 9998 * s.size
    → (length (click_port_page p last s).1.rows ≡ 0)
      × (0 < (click_port_page p last s).1.count)
      × ((click_port_page p last s).0.page ≡ 9999)
unfolding click_port_page
click_port_page_last p s some_port few = (
  length-rows p (record s { page = 9999 }) ∙ omega (arith, count-sorted p s 9999),
  omega (arith, count-sorted p s 9999),
  refl,
)
