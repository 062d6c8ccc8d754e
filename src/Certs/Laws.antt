-- ===== src/Certs/Laws.antt =====
-- The details of a certificate that was opened before another one.
use domain_ssl_checker.Certs.{
  CertState, show_cert, details, open_cert_modal, receive_cert, check_now, without_request,
}
use domain_ssl_checker.Certs.View.{CertAnswer, CertShown, cert_view}
use domain_ssl_checker.Base.{
  ℕ, Text, Option, List, some, ◌≡◌, ◌∷◌, ==-self, refl, ◌∙◌, true, none, ap, if◌then◌else◌, true,
}

without-first : (x : ℕ) (xs : List ℕ) → without_request x (x ∷ xs) ≡ xs
without-first x xs = ap (λ b. if b then xs else x ∷ without_request x xs) (==-self x)

module _ (lower upper : Text → Text) (parse : Text → Option (List Text)) where
  abbrev pub view : CertAnswer → Option CertShown
  view = cert_view lower upper parse

  abbrev pub answer_cert : ℕ → Option CertAnswer → CertState → CertState
  answer_cert = receive_cert lower upper parse

  -- An answer is taken from the requests that wait, and leaves what was opened last.
  show-keeps :
      (o : Option CertShown) (s : CertState)
      → ((show_cert lower upper parse o s).waiting ≡ s.waiting)
        × ((show_cert lower upper parse o s).last_id ≡ s.last_id)
  show-keeps none s = (refl, refl)
  show-keeps (some v) s = (refl, refl)

  receive-keeps :
      (id : ℕ) (a : CertAnswer) (s : CertState)
      → ((answer_cert id (some a) s).waiting ≡ without_request id s.waiting)
        × ((answer_cert id (some a) s).last_id ≡ s.last_id)
  unfolding receive_cert
  receive-keeps id a s = show-keeps (view a) _

  receive-shows :
      (id : ℕ) (a : CertAnswer) (v : CertShown) (s : CertState)
      → view a ≡ some v
      → ((answer_cert id (some a) s).body ≡ details v)
        × ((answer_cert id (some a) s).footer_shown ≡ true)
  unfolding receive_cert
  receive-shows id a v s e = rw e (refl, refl)

  -- The details of a certificate are opened, and then those of another one, before the answer to the first
  -- request. Both requests wait, and if the answer to the first comes last and can be shown, its details
  -- are shown, while the button checks the other one again.
  pub late_cert_shows :
      (id other : ℕ) (a b : CertAnswer) (v : CertShown) (s : CertState)
      → view a ≡ some v
      → let opened = open_cert_modal other (open_cert_modal id s) in
        let answered = answer_cert other (some b) opened in
        let late = answer_cert id (some a) answered in
        (opened.waiting ≡ other ∷ id ∷ s.waiting)
        × (late.waiting ≡ s.waiting)
        × (late.body ≡ details v)
        × (late.footer_shown ≡ true)
        × ((check_now late).0 ≡ some other)
  unfolding open_cert_modal check_now
  late_cert_shows id other a b v s e =
      let opened = open_cert_modal other (open_cert_modal id s) in
      let answered = answer_cert other (some b) opened in
      let (wait_b, last_b) = receive-keeps other b opened in
      let (wait_a, last_a) = receive-keeps id a answered in
      let (body, footer) = receive-shows id a v answered e in
      (
        refl,
        wait_a
            ∙ ap (without_request id) (wait_b ∙ without-first other (id ∷ s.waiting))
            ∙ without-first id s.waiting,
        body,
        footer,
        last_a ∙ last_b,
      )
