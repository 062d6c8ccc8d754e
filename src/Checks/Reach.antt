-- ===== src/Checks/Reach.antt =====
-- Every state that the page can come to, and that the answers bring it to rest.
use mathlib.Core.Path.{subst}
use domain_ssl_checker.Checks.{
  BulkState, take_next, process_queue, bulk_check, answer, at_load, finish, Waiting, emit, started,
  refused, resume, is_nil,
}
use domain_ssl_checker.Base.{
  ◌≡◌, String, inl, List, true, ◌⊎◌, ℕ, inr, ◌∷◌, some, [], length, refl, Option, ap, if◌then◌else◌,
  suc, none, sym, ◌∙◌, Bool-cases, str_eq,
}
use domain_ssl_checker.Checks.Run.{
  IsIdle, answers, process_queue-idle, resume-Ends, process_queue-busy,
}
use domain_ssl_checker.Domains.{ListType, Domain}

-- Clicks and answers, in any order.
pub data Reachable : BulkState → Type 0 where
  loaded : Reachable at_load
  clicked :
      (role : String) (view : ListType) (cached : List Domain) (ids : List ℕ) (s : BulkState)
      → Reachable s
      → Reachable (bulk_check role view cached ids s)
  answered : (s : BulkState) → Reachable s → Reachable (answer s)

pub record IsRunning (s : BulkState) : Type 0 where
  pub runs : s.running ≡ true
  pub at_await : (w : Waiting) × (s.waiting ≡ some w)

abbrev pub IsConsistent : BulkState → Type 0
IsConsistent s = IsIdle s ⊎ IsRunning s

emit-IsConsistent : (s : BulkState) → IsConsistent s → IsConsistent (emit refused s)
emit-IsConsistent s (inl i) =
    inl (record { not_running = i.not_running; not_waiting = i.not_waiting; no_queue = i.no_queue })
emit-IsConsistent s (inr r) = inr (record { runs = r.runs; at_await = r.at_await })

take_next-IsConsistent :
    (type : ListType) (total a : ℕ) (ids : List ℕ) (s : BulkState)
    → s.running ≡ true
    → IsConsistent (take_next type total a ids s)
unfolding take_next finish
take_next-IsConsistent type total a [] s r =
    inl (record { not_running = refl; not_waiting = refl; no_queue = refl })
take_next-IsConsistent type total a (id ∷ ids) s r = inr (record { runs = r; at_await = (_, refl) })

bulk_check-IsConsistent :
    (role : String) (view : ListType) (cached : List Domain) (ids : List ℕ) (s : BulkState)
    → IsConsistent s
    → IsConsistent (bulk_check role view cached ids s)
unfolding bulk_check started
bulk_check-IsConsistent role view cached ids s c = elim (Bool-cases (str_eq role "admin")) [
  | inr viewer ↦ rw viewer (emit-IsConsistent s c)
  | inl admin ↦ rw admin (queued ids c)
]
  where
    queued :
        (is : List ℕ)
        → IsConsistent s
        → IsConsistent
            (if is_nil is then s else process_queue view cached (record s { queue = is }))
    queued [] c = c
    queued (id ∷ is) (inl i) =
        subst IsConsistent (sym (process_queue-idle view cached id is s i.not_running))
          (take_next-IsConsistent _ _ _ (id ∷ is) _ refl)
    queued (id ∷ is) (inr r) =
        subst IsConsistent (sym (process_queue-busy view cached id is s r.runs))
          (inr (record { runs = r.runs; at_await = r.at_await }))

some-none : {w : Waiting} → ¬ (some w ≡ none)
some-none e = cc

resume-IsConsistent :
    (o : Option Waiting) (s : BulkState)
    → s.waiting ≡ o
    → IsConsistent s
    → IsConsistent (resume o s)
resume-IsConsistent none s e c = c
resume-IsConsistent (some w) s e (inl i) = absurd (some-none (sym e ∙ i.not_waiting))
resume-IsConsistent (some w) s e (inr r) = take_next-IsConsistent _ _ _ s.queue _ r.runs

answer-IsConsistent : (s : BulkState) → IsConsistent s → IsConsistent (answer s)
unfolding answer
answer-IsConsistent s c = resume-IsConsistent s.waiting s refl c

Reachable-IsConsistent : (s : BulkState) → Reachable s → IsConsistent s
Reachable-IsConsistent _ loaded =
    inl (record { not_running = refl; not_waiting = refl; no_queue = refl })
Reachable-IsConsistent _ (clicked role view cached ids s r) =
    bulk_check-IsConsistent role view cached ids s (Reachable-IsConsistent s r)
Reachable-IsConsistent _ (answered s r) = answer-IsConsistent s (Reachable-IsConsistent s r)

answer-idle : (s : BulkState) → IsIdle s → answer s ≡ s
unfolding answer
answer-idle s i = ap (λ o. resume o s) i.not_waiting

-- In every state that the page comes to, either no run is under way and nothing is queued, or the
-- run waits for an answer; and one answer more than ids are queued leaves no run under way.
pub answers-Reachable :
    (s : BulkState) → Reachable s → IsConsistent s × IsIdle (answers (suc (length s.queue)) s)
answers-Reachable s r = let c = Reachable-IsConsistent s r in (c, ends c)
  where
    ends : IsConsistent s → IsIdle (answers (suc (length s.queue)) s)
    ends (inl i) =
        subst (λ q. IsIdle (answers (suc (length q)) s)) (sym i.no_queue)
          (subst IsIdle (sym (answer-idle s i)) i)
    ends (inr run) = (resume-Ends s.queue s run.at_await.0 refl run.at_await.1).idle
