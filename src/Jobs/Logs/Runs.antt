-- ===== src/Jobs/Logs/Runs.antt =====
-- What the event logs of `MemoryJobStore` are after any calls.
use lil_tweak.Prelude.{
  ◌≡◌, refl, ap, inl, inr, String, some, List, [], ◌∷◌, ◌++◌, string_Eq, Bool-cases, ◌==◌, eq_iff,
}
use lil_tweak.Prelude.Table.{get, get-put, get-put_at}
use lil_tweak.Jobs.Model.{JobEvent, JobStore}
use lil_tweak.Jobs.Logs.{
  Digesters, JobCall, nonce, claim, renew, release, reconcile, create, update, cancel, cancel_once,
  decide, export, log, move, approve, use_approval, record_answer, job_after, job_run, IsNewId,
  IsNewRun, LogStep, same, opened, logged, LogSteps, done, next, IsNumbered, IsLogged,
  steps-IsLogged,
}
use lil_tweak.Jobs.Logs.Steps.{
  one, unchanged, append-step, consume_nonce-events, claim_job-events, renew_claim-events,
  release_claim-events, update_job-events, request_cancel-events, create_approval-events,
  consume_approval-events, record_decision-events, create_job-events, append_event-after,
  transition_job-after, cancel-after,
}
use lil_tweak.Jobs.Logs.Decisions.{decide-LogSteps, export-LogSteps, reconcile-LogSteps}

after-LogSteps :
    (d : Digesters) (c : JobCall) (s : JobStore) → IsNewId c s → LogSteps s (job_after d c s)
unfolding job_after
after-LogSteps d (nonce key_id value now later) s f =
    unchanged s _ (consume_nonce-events key_id value now later s)
after-LogSteps d (claim id owner worker seconds now) s f =
    unchanged s _ (claim_job-events id owner worker seconds now s)
after-LogSteps d (renew lease seconds now) s f =
    unchanged s _ (renew_claim-events lease seconds now s)
after-LogSteps d (release lease) s f = unchanged s _ (release_claim-events lease s)
after-LogSteps d (reconcile now limit) s f = reconcile-LogSteps now limit s
after-LogSteps d (create r id now) s f = elim (create_job-events d.fingerprint r id now s) [
  | inl e ↦ unchanged s _ e
  | inr e ↦ one (opened id f e)
]
after-LogSteps d (update id owner revision c now) s f =
    unchanged s _ (update_job-events id owner revision c now s)
after-LogSteps d (cancel id owner revision now) s f =
    unchanged s _ (request_cancel-events id owner revision now s)
after-LogSteps d (cancel_once id owner revision key hash now) s f =
    elim (cancel-after id owner revision key hash now s) [
      | inl e ↦ unchanged s _ (ap (λ (z : JobStore). z.events) e)
      | inr (kind, checked, u, p, e) ↦ rw e (one (append-step id kind checked now s u p))
    ]
after-LogSteps d (decide id owner revision v now) s f = decide-LogSteps id owner revision v now s
after-LogSteps d (export u x now) s f = export-LogSteps d.sha256 u x now s
after-LogSteps d (log id owner kind data_fields now) s f =
    elim (append_event-after id owner kind data_fields now s) [
      | inl e ↦ unchanged s _ (ap (λ (z : JobStore). z.events) e)
      | inr (checked, e) ↦ rw e (one (append-step id kind checked now s s refl))
    ]
after-LogSteps d (move id owner revision c kind data_fields now) s f =
    elim (transition_job-after id owner revision c kind data_fields now s) [
      | inl e ↦ unchanged s _ e
      | inr (checked, e) ↦
          rw e (
            one (append-step id kind checked now s _ (update_job-events id owner revision c now s)))
    ]
after-LogSteps d (approve a now) s f = unchanged s _ (create_approval-events a now s)
after-LogSteps d (use_approval token u now) s f =
    unchanged s _ (consume_approval-events d.sha256 token u now s)
after-LogSteps d (record_answer owner key hash id) s f =
    unchanged s _ (record_decision-events owner key hash id s)

append-steps : {s t u : JobStore} → LogSteps s t → LogSteps t u → LogSteps s u
append-steps done more = more
append-steps (next step rest) more = next step (append-steps rest more)

run-LogSteps :
    (d : Digesters) (cs : List JobCall) (s : JobStore)
    → IsNewRun d cs s
    → LogSteps s (job_run d cs s)
unfolding job_run
run-LogSteps d [] s f = done
run-LogSteps d (c ∷ cs) s f =
    append-steps (after-LogSteps d c s f.0) (run-LogSteps d cs (job_after d c s) f.1)

abbrev pub empty_jobs : JobStore
empty_jobs = record {
  nonces = [];
  jobs = [];
  idempotency = [];
  events = [];
  approvals = [];
  approval_index = [];
  decisions = [];
  claims = [];
  lease_generations = [];
}

empty-IsLogged : IsLogged empty_jobs
unfolding get
empty-IsLogged = record { numbered = λ k es h. cc h }

-- After any calls in which new jobs get unused ids, the events of every job have the numbers 1, 2, 3 and so on, in the order of its log.
pub events_count_up :
    (d : Digesters) (calls : List JobCall) (k : String) (es : List JobEvent)
    → IsNewRun d calls empty_jobs
    → get k (job_run d calls empty_jobs).events ≡ some es
    → IsNumbered 0 es
events_count_up d calls k es fresh found =
    (steps-IsLogged (run-LogSteps d calls empty_jobs fresh) empty-IsLogged).numbered k es found

append_assoc : (es fs gs : List JobEvent) → (es ++ fs) ++ gs ≡ es ++ (fs ++ gs)
append_assoc [] fs gs = refl
append_assoc (e ∷ es) fs gs = ap (λ (z : List JobEvent). e ∷ z) (append_assoc es fs gs)

append_nil : (es : List JobEvent) → es ++ [] ≡ es
append_nil [] = refl
append_nil (e ∷ es) = ap (λ (z : List JobEvent). e ∷ z) (append_nil es)

stored_once :
    (j k : String) (fs es : List JobEvent) (s : JobStore)
    → j ≡ k
    → get j s.events ≡ some fs
    → get k s.events ≡ some es
    → fs ≡ es
stored_once j k fs es s here p q = cc (here, p, q)

-- One step leaves a log as it is, or adds one event.
step-grows :
    (s t : JobStore) (k : String) (es : List JobEvent)
    → LogStep s t
    → get k s.events ≡ some es
    → (fs : List JobEvent) × (get k t.events ≡ some (es ++ fs))
step-grows s t k es (same e) h = ([], rw (e, append_nil es) h)
step-grows s t k es (opened j unused e) h = elim (Bool-cases (j == k)) [
  | inl at_k ↦ cc (unused, (eq_iff j k).0 at_k, h)
  | inr other ↦ ([], rw (e, append_nil es, get-put j k [] s.events, other) h)
]
step-grows s t k es (logged j fs event found number e) h = elim (Bool-cases (j == k)) [
  | inl at_k ↦
      let here : j ≡ k = (eq_iff j k).0 at_k in
      let same_log : fs ≡ es = stored_once j k fs es s here found h in
      (event ∷ [], rw e (rw (← same_log) (get-put_at j k (fs ++ event ∷ []) s.events here)))
  | inr other ↦ ([], rw (e, append_nil es, get-put j k (fs ++ event ∷ []) s.events, other) h)
]

steps-grow :
    {s t : JobStore} (k : String) (es : List JobEvent)
    → LogSteps s t
    → get k s.events ≡ some es
    → (fs : List JobEvent) × (get k t.events ≡ some (es ++ fs))
steps-grow k es done h = ([], rw (append_nil es) h)
steps-grow k es (next {s} {t} step rest) h =
    let (fs, first) = step-grows s t k es step h in
    let (gs, more) = steps-grow k (es ++ fs) rest first in
    (fs ++ gs, rw (← append_assoc es fs gs) more)

-- Over any calls in which new jobs get unused ids, the log of a job only grows: its events stay as they are and in their places.
pub log_only_grows :
    (d : Digesters) (calls : List JobCall) (s : JobStore) (k : String) (es : List JobEvent)
    → IsNewRun d calls s
    → get k s.events ≡ some es
    → (fs : List JobEvent) × (get k (job_run d calls s).events ≡ some (es ++ fs))
log_only_grows d calls s k es fresh found = steps-grow k es (run-LogSteps d calls s fresh) found
