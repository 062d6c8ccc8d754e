-- ===== src/Api/Run.antt =====
-- Calls of the server one after another: each holds the token that the one before left.
use domain_ssl_checker.Api.{
  api, Request, requests_for, held_for, outcome_of, Response, undefined, thrown, returned, Outcome,
  Call, Method, get, post, put, del, is_get, keep_token,
}
use domain_ssl_checker.Base.{
  truthy, true, false, refl, ◌==◌, ◌&&◌, ◌+◌, ◌-◌, ◌≤◌, not, List, Option, Text, none, Bool, ◌∷◌, ℕ,
  [], length, some, ◌≡◌, if◌then◌else◌, All, arith, Bool-cases, inl, inr, codes,
}

-- A call that is made, with what the server answers to it and to a request for a token.
pub record Input (D : Type 0) : Type 0 where
  pub method : Method
  pub path : Text
  pub has_body : Bool
  pub csrf : Option Text
  pub response : Option (Response D)

-- The token of the last request.
abbrev pub last_token : List Request → Option Text
last_token [] = none
last_token (r ∷ []) = r.token
last_token (r ∷ q ∷ rs) = last_token (q ∷ rs)

-- What is still to ask for
abbrev to_ask : Option Text → ℕ
to_ask held = if truthy held then 0 else 1

carries_lem :
    (m : Method) (path : Text) (b : Bool) (held csrf : Option Text)
    → truthy csrf ≡ true
    → truthy (last_token (requests_for m path b held csrf)) ≡ not (is_get m)
unfolding requests_for held_for
carries_lem get path b held csrf h = refl
carries_lem post path b none none h = absurd (ground (arith, h))
carries_lem post path b none (some []) h = absurd (ground (arith, h))
carries_lem post path b none (some (c ∷ cs)) h = refl
carries_lem post path b (some []) none h = absurd (ground (arith, h))
carries_lem post path b (some []) (some []) h = absurd (ground (arith, h))
carries_lem post path b (some []) (some (c ∷ cs)) h = refl
carries_lem post path b (some (c ∷ cs)) csrf h = refl
carries_lem put path b none none h = absurd (ground (arith, h))
carries_lem put path b none (some []) h = absurd (ground (arith, h))
carries_lem put path b none (some (c ∷ cs)) h = refl
carries_lem put path b (some []) none h = absurd (ground (arith, h))
carries_lem put path b (some []) (some []) h = absurd (ground (arith, h))
carries_lem put path b (some []) (some (c ∷ cs)) h = refl
carries_lem put path b (some (c ∷ cs)) csrf h = refl
carries_lem del path b none none h = absurd (ground (arith, h))
carries_lem del path b none (some []) h = absurd (ground (arith, h))
carries_lem del path b none (some (c ∷ cs)) h = refl
carries_lem del path b (some []) none h = absurd (ground (arith, h))
carries_lem del path b (some []) (some []) h = absurd (ground (arith, h))
carries_lem del path b (some []) (some (c ∷ cs)) h = refl
carries_lem del path b (some (c ∷ cs)) csrf h = refl

asks_lem :
    (m : Method) (path : Text) (b : Bool) (held csrf : Option Text)
    → truthy csrf ≡ true
    → (length (requests_for m path b held csrf) - 1) + to_ask (held_for m held csrf) ≤ to_ask held
unfolding requests_for held_for
asks_lem m path b held csrf h = ground arith

keep_lem : (held new : Option Text) → to_ask (keep_token held new) ≤ to_ask held
keep_lem held new = ground arith

module _ {D : Type 0} where
  abbrev pub call_with : Input D → Option Text → Call D
  call_with i held = api i.method i.path i.has_body held i.csrf i.response

  abbrev pub run_calls : List (Input D) → Option Text → List (Input D × Call D)
  run_calls [] held = []
  run_calls (i ∷ is) held = (i, call_with i held) ∷ run_calls is (call_with i held).held

  -- The requests for a token
  abbrev pub asked : List (Input D × Call D) → ℕ
  asked [] = 0
  asked ((i, c) ∷ cs) = (length c.sent - 1) + asked cs

  abbrev pub is_returned : Outcome D → Bool
  is_returned (returned d) = true
  is_returned undefined = false
  is_returned (thrown e) = false

  abbrev pub is_undefined : Outcome D → Bool
  is_undefined (returned d) = false
  is_undefined undefined = true
  is_undefined (thrown e) = false

  abbrev pub is_some : Option D → Bool
  is_some none = false
  is_some (some d) = true

  -- The answers that are none but a redirection, and the ones with data
  abbrev pub unauthorised : Option (Response D) → Bool
  unauthorised none = false
  unauthorised (some r) = r.status == 401

  abbrev pub succeeded : Option (Response D) → Bool
  succeeded none = false
  succeeded (some r) = not (r.status == 401) && (r.ok && is_some r.contents)

  -- The last request of a call carries a token exactly if it is no GET; it returns data exactly on a success,
  -- and redirects and ends as `undefined` exactly on status 401, so that it throws on all else.
  pub record IsCall (i : Input D) (c : Call D) : Type 0 where
    pub carries : truthy (last_token c.sent) ≡ not (is_get i.method)
    pub returns : is_returned c.outcome ≡ succeeded i.response
    pub ends : is_undefined c.outcome ≡ unauthorised i.response
    pub redirects : c.redirected ≡ unauthorised i.response

  abbrev pub HasToken : Input D → Type 0
  HasToken i = truthy i.csrf ≡ true

  by_contents :
      (o : Option D)
      → let end : Outcome D = elim o [ none ↦ thrown (codes "JSON") | some d ↦ returned d ] in
        (is_returned end ≡ is_some o) × (is_undefined end ≡ false)
  by_contents none = (refl, refl)
  by_contents (some d) = (refl, refl)

  outcome_lem :
      (r : Response D)
      → (is_returned (outcome_of r) ≡ succeeded (some r))
        × (is_undefined (outcome_of r) ≡ unauthorised (some r))
  unfolding outcome_of
  outcome_lem r = elim (Bool-cases (r.status == 401)) [
    | inl out ↦ rw out (refl, refl)
    | inr there ↦ elim (Bool-cases r.ok) [
      | inl fine ↦ rw (there, fine) (by_contents r.contents)
      | inr wrong ↦ rw (there, wrong) (refl, refl)
    ]
  ]

  -- One call, by the answer to it
  answered_lem :
      (i : Input D) (held : Option Text) (response : Option (Response D))
      → HasToken i
      → let c = api i.method i.path i.has_body held i.csrf response in
        IsCall (record i { response = response }) c
        × ((length c.sent - 1) + to_ask c.held ≤ to_ask held)
  unfolding api
  answered_lem i held none h = (
    record {
      carries = carries_lem i.method i.path i.has_body held i.csrf h;
      returns = refl;
      ends = refl;
      redirects = refl;
    },
    asks_lem i.method i.path i.has_body held i.csrf h,
  )
  answered_lem i held (some r) h =
      let asks = asks_lem i.method i.path i.has_body held i.csrf h in
      let keeps = keep_lem (held_for i.method held i.csrf) r.new_token in
      (
        record {
          carries = carries_lem i.method i.path i.has_body held i.csrf h;
          returns = (outcome_lem r).0;
          ends = (outcome_lem r).1;
          redirects = refl;
        },
        omega arith,
      )

  -- In any sequence of calls, where the server gives a token when it is asked for one: the page asks for a
  -- token at most once, and not at all if it holds one. Each call other than GET carries a token, and no GET
  -- does. A call returns data exactly if it was answered with a success that can be read, and it redirects
  -- and ends without data and without an exception exactly if it was answered with status 401; in all other
  -- cases it throws.
  pub run_calls_lem :
      (is : List (Input D)) (held : Option Text)
      → All HasToken is
      → (asked (run_calls is held) ≤ (if truthy held then 0 else 1))
        × All (λ (i, c). IsCall i c) (run_calls is held)
  run_calls_lem [] held h = (omega arith, tt)
  run_calls_lem (i ∷ is) held h =
      let (here, asks) = answered_lem i held i.response h.0 in
      let (later, rest) = run_calls_lem is (call_with i held).held h.1 in
      (omega arith, (here, rest))
