-- ===== src/Checks/Run.antt =====
-- A run of the bulk check to its end.
use mathlib.Core.Path.{subst}
use mathlib.Core.List.{append-nil}
use domain_ssl_checker.Base.{
  List, ℕ, suc, ◌≡◌, [], ◌∷◌, zero, false, ◌++◌, arith, length, none, ap, refl, ◌<◌, true, some,
  ◌∙◌, if◌then◌else◌, ◌||◌, append_assoc, sym,
}
use domain_ssl_checker.Checks.{
  BulkState, progress_at, finish, take_next, Effect, answer, posted, reloaded, announced, progress,
  completed, hidden_progress, refused, process_queue, bulk_check, Waiting, started, resume,
}
use domain_ssl_checker.Domains.{ListType, Domain}

-- The requests and the reloads among the effects, in order.
abbrev pub requests : List Effect → List ℕ
requests [] = []
requests (posted id ∷ es) = id ∷ requests es
requests (e ∷ es) = requests es

abbrev pub reloads : List Effect → List ListType
reloads [] = []
reloads (reloaded type ∷ es) = type ∷ reloads es
reloads (e ∷ es) = reloads es

-- `n` answers of the server, one after the other.
abbrev pub answers : ℕ → BulkState → BulkState
answers zero s = s
answers (suc n) s = answers n (answer s)

-- No run is under way, and nothing is queued.
pub record IsIdle (s : BulkState) : Type 0 where
  pub not_running : s.running ≡ false
  pub not_waiting : s.waiting ≡ none
  pub no_queue : s.queue ≡ []

requests-append : (es fs : List Effect) → requests (es ++ fs) ≡ requests es ++ requests fs
requests-append [] fs = refl
requests-append (announced n ∷ es) fs = requests-append es fs
requests-append (posted id ∷ es) fs = ap (id ∷◌) (requests-append es fs)
requests-append (progress a b ∷ es) fs = requests-append es fs
requests-append (completed n ∷ es) fs = requests-append es fs
requests-append (hidden_progress ∷ es) fs = requests-append es fs
requests-append (reloaded t ∷ es) fs = requests-append es fs
requests-append (refused ∷ es) fs = requests-append es fs

reloads-append : (es fs : List Effect) → reloads (es ++ fs) ≡ reloads es ++ reloads fs
reloads-append [] fs = refl
reloads-append (announced n ∷ es) fs = reloads-append es fs
reloads-append (posted id ∷ es) fs = reloads-append es fs
reloads-append (progress a b ∷ es) fs = reloads-append es fs
reloads-append (completed n ∷ es) fs = reloads-append es fs
reloads-append (hidden_progress ∷ es) fs = reloads-append es fs
reloads-append (reloaded t ∷ es) fs = ap (t ∷◌) (reloads-append es fs)
reloads-append (refused ∷ es) fs = reloads-append es fs

requests-progress_at : (a n : ℕ) → requests (progress_at a n) ≡ []
unfolding progress_at
requests-progress_at a n = ground arith

reloads-progress_at : (a n : ℕ) → reloads (progress_at a n) ≡ []
unfolding progress_at
reloads-progress_at a n = ground arith

-- The state `t` is what a run from `s` over the ids `ids` comes to.
pub record Ends (type : ListType) (ids : List ℕ) (s t : BulkState) : Type 0 where
  pub idle : IsIdle t
  pub sent : requests t.effects ≡ requests s.effects ++ ids
  pub reloaded_once : reloads t.effects ≡ reloads s.effects ++ type ∷ []

Ends-finish :
    (type : ListType) (total : ℕ) (s : BulkState)
    → Ends type [] s (finish type total (record s { queue = [] }))
unfolding finish
Ends-finish type total s = record {
  idle = record { not_running = refl; not_waiting = refl; no_queue = refl };
  sent = requests-append s.effects _;
  reloaded_once = reloads-append s.effects _;
}

Ends-later :
    (type : ListType) (id a n : ℕ) (ids : List ℕ) (s s' t : BulkState)
    → s'.effects ≡ (s.effects ++ posted id ∷ []) ++ progress_at a n
    → Ends type ids s' t
    → Ends type (id ∷ ids) s t
Ends-later type id a n ids s s' t e h = record {
  idle = h.idle;
  sent = simp (h.sent, e, requests-append, requests-progress_at, append_assoc);
  reloaded_once = simp (h.reloaded_once, e, reloads-append, reloads-progress_at, append_assoc);
}

-- The loop from its head: as many answers as ids are left bring it to its end.
pub take_next-Ends :
    (ids : List ℕ) (type : ListType) (total a : ℕ) (s : BulkState)
    → Ends type ids s (answers (length ids) (take_next type total a ids s))
unfolding take_next answer
take_next-Ends [] type total a s = Ends-finish type total s
take_next-Ends (id ∷ ids) type total a s =
    Ends-later type id (suc a) total ids s _ _ refl (take_next-Ends ids type total (suc a) _)

-- An effect that is no request and no reload does not count.
Ends-same :
    (type : ListType) (ids : List ℕ) (s s' t : BulkState)
    → requests s'.effects ≡ requests s.effects
    → reloads s'.effects ≡ reloads s.effects
    → Ends type ids s' t
    → Ends type ids s t
Ends-same type ids s s' t e f h = record {
  idle = h.idle;
  sent = h.sent ∙ ap (◌++ ids) e;
  reloaded_once = h.reloaded_once ∙ ap (◌++ (type ∷ [])) f;
}

pub process_queue-idle :
    (view : ListType) (cached : List Domain) (id : ℕ) (ids : List ℕ) (s : BulkState)
    → s.running ≡ false
    → process_queue view cached (record s { queue = id ∷ ids })
      ≡ take_next view
          (suc (length ids))
          0
          (id ∷ ids)
          (started view cached (record s { queue = id ∷ ids }))
unfolding process_queue
process_queue-idle view cached id ids s idle =
    ap
      (λ b.
        if b || false
        then record s { queue = id ∷ ids }
        else take_next view (suc (length ids)) 0 (id ∷ ids)
            (started view cached (record s { queue = id ∷ ids })))
      idle

pub process_queue-busy :
    (view : ListType) (cached : List Domain) (id : ℕ) (ids : List ℕ) (s : BulkState)
    → s.running ≡ true
    → process_queue view cached (record s { queue = id ∷ ids }) ≡ record s { queue = id ∷ ids }
unfolding process_queue
process_queue-busy view cached id ids s busy =
    ap
      (λ b.
        if b || false
        then record s { queue = id ∷ ids }
        else take_next view (suc (length ids)) 0 (id ∷ ids)
            (started view cached (record s { queue = id ∷ ids })))
      busy

-- With no run under way, an admin's check of some rows sends one request for each of them, in the
-- order of the selection, and reloads the list once; as many answers as rows bring it to its end.
pub bulk_check-Ends :
    (view : ListType) (cached : List Domain) (ids : List ℕ) (s : BulkState)
    → s.running ≡ false
    → 0 < length ids
    → Ends view ids s (answers (length ids) (bulk_check "admin" view cached ids s))
unfolding bulk_check started
bulk_check-Ends view cached [] s idle some_id = absurd (omega arith)
bulk_check-Ends view cached (id ∷ ids) s idle some_id =
    subst (λ t. Ends view (id ∷ ids) s (answers (suc (length ids)) t))
      (sym (process_queue-idle view cached id ids s idle))
      (Ends-same view (id ∷ ids) s (started view cached (record s { queue = id ∷ ids })) _
        (requests-append s.effects _ ∙ append-nil _) (reloads-append s.effects _ ∙ append-nil _)
        (take_next-Ends (id ∷ ids) view (suc (length ids)) 0 _))

pub resume-Ends :
    (ids : List ℕ) (s : BulkState) (w : Waiting)
    → s.queue ≡ ids
    → s.waiting ≡ some w
    → Ends w.type ids s (answers (suc (length ids)) s)
unfolding answer
resume-Ends ids s w q waits =
    subst (λ o. Ends w.type ids s (answers (length ids) (resume o s))) (sym waits)
      (subst
        (λ is. Ends w.type ids s (
          answers (length ids) (
            take_next w.type w.total (suc w.answered) is
              (record s { effects = s.effects ++ progress_at (suc w.answered) w.total }))))
        (sym q)
        (Ends-same w.type ids s _ _
          (requests-append s.effects _ ∙ rw requests-progress_at (append-nil _))
          (reloads-append s.effects _ ∙ rw reloads-progress_at (append-nil _))
          (take_next-Ends ids w.type w.total (suc w.answered)
            (record s { effects = s.effects ++ progress_at (suc w.answered) w.total }))))

-- While a run waits for an answer, an admin's check of some rows replaces the queue: the run goes
-- on with these rows alone, and no request is sent for those that were queued before.
pub bulk_check_drops_queue :
    (view : ListType) (cached : List Domain) (ids : List ℕ) (s : BulkState) (w : Waiting)
    → s.running ≡ true
    → s.waiting ≡ some w
    → 0 < length ids
    → Ends w.type ids s (answers (suc (length ids)) (bulk_check "admin" view cached ids s))
unfolding bulk_check
bulk_check_drops_queue view cached [] s w runs waits some_id = absurd (omega arith)
bulk_check_drops_queue view cached (id ∷ ids) s w runs waits some_id =
    subst (λ t. Ends w.type (id ∷ ids) s (answers (suc (suc (length ids))) t))
      (sym (process_queue-busy view cached id ids s runs))
      (Ends-same w.type (id ∷ ids) s (record s { queue = id ∷ ids }) _ refl refl
        (resume-Ends (id ∷ ids) (record s { queue = id ∷ ids }) w refl waits))
