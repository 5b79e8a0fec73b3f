-- ===== src/Jobs/Logs.antt =====
-- The event logs of `MemoryJobStore` over any sequence of its calls.
pub mod Steps
pub mod Decisions
pub mod Runs
pub mod Kept
pub mod Spent
use lil_tweak.Prelude.{
  ℕ, ◌+◌, ◌≡◌, refl, sym, ◌∙◌, ap, Bool, true, false, String, Option, some, none, List, [], ◌∷◌,
  ◌++◌, length, string_Eq, Result, ok, err, arith, inl, inr,
}
use lil_tweak.Prelude.Table.{get, put, put_found}
use lil_tweak.Json.{Fields}
use lil_tweak.Jobs.Model.{Job, JobEvent, JobLease, Approval, JobStore}
use lil_tweak.Jobs.Events.{append_event_locked, append_event}
use lil_tweak.Jobs.Nonces.{consume_nonce}
use lil_tweak.Jobs.Updates.{JobRequest, create_job, JobChange, update_job, transition_job}
use lil_tweak.Jobs.Cancels.{request_cancel, request_cancel_idempotent, record_decision}
use lil_tweak.Jobs.Approvals.{Verdict, decide_job_idempotent}
use lil_tweak.Jobs.Approvals.Exports.{
  Use, Export, create_approval, consume_approval, consume_export_idempotent,
}
use lil_tweak.Jobs.Leases.{claim_job, renew_claim, release_claim, reconcile_active_jobs}

-- The functions that the store takes from libraries: the fingerprint of a request, and SHA-256.
pub record Digesters : Type 0 where
  pub fingerprint : JobRequest → String
  pub sha256 : String → String

-- A call of a method that changes the state, with its arguments, the clock's reading, and the new
-- UUID where the method makes one.
pub data JobCall : Type 0 where
  nonce : String → String → ℕ → ℕ → JobCall
  claim : String → String → String → ℕ → ℕ → JobCall
  renew : JobLease → ℕ → ℕ → JobCall
  release : JobLease → JobCall
  reconcile : ℕ → ℕ → JobCall
  create : JobRequest → String → ℕ → JobCall
  update : String → String → ℕ → JobChange → ℕ → JobCall
  cancel : String → String → ℕ → ℕ → JobCall
  cancel_once : String → String → ℕ → String → String → ℕ → JobCall
  decide : String → String → ℕ → Verdict → ℕ → JobCall
  export : Use → Export → ℕ → JobCall
  log : String → String → String → Fields → ℕ → JobCall
  move : String → String → ℕ → JobChange → String → Fields → ℕ → JobCall
  approve : Approval → ℕ → JobCall
  use_approval : String → Use → ℕ → JobCall
  record_answer : String → String → String → String → JobCall

-- The state that a call leaves, with or without an exception.
unfoldable pub job_after : Digesters → JobCall → JobStore → JobStore
job_after d (nonce key_id value now later) s = (consume_nonce key_id value now later s).1
job_after d (claim id owner worker seconds now) s = (claim_job id owner worker seconds now s).1
job_after d (renew lease seconds now) s = (renew_claim lease seconds now s).1
job_after d (release lease) s = release_claim lease s
job_after d (reconcile now limit) s = (reconcile_active_jobs now limit s).1
job_after d (create r id now) s = (create_job d.fingerprint r id now s).1
job_after d (update id owner revision c now) s = (update_job id owner revision c now s).1
job_after d (cancel id owner revision now) s = (request_cancel id owner revision now s).1
job_after d (cancel_once id owner revision key hash now) s =
    (request_cancel_idempotent id owner revision key hash now s).1
job_after d (decide id owner revision v now) s = (decide_job_idempotent id owner revision v now s).1
job_after d (export u x now) s = (consume_export_idempotent d.sha256 u x now s).1
job_after d (log id owner kind data_fields now) s = (append_event id owner kind data_fields now s).1
job_after d (move id owner revision c kind data_fields now) s =
    (transition_job id owner revision c kind data_fields now s).1
job_after d (approve a now) s = (create_approval a now s).1
job_after d (use_approval token u now) s = (consume_approval d.sha256 token u now s).1
job_after d (record_answer owner key hash id) s = (record_decision owner key hash id s).1

unfoldable pub job_run : Digesters → List JobCall → JobStore → JobStore
job_run d [] s = s
job_run d (c ∷ cs) s = job_run d cs (job_after d c s)

-- A new job's id has no events yet.
abbrev pub IsNewId : JobCall → JobStore → Type 0
IsNewId (create r id now) s = get id s.events ≡ none
IsNewId _ s = Unit

abbrev pub IsNewRun : Digesters → List JobCall → JobStore → Type 0
IsNewRun d [] s = Unit
IsNewRun d (c ∷ cs) s = IsNewId c s × IsNewRun d cs (job_after d c s)

-- What happens to the logs: nothing, a new log, or one event behind the others of its job.
pub data LogStep (s t : JobStore) : Type 0 where
  same : t.events ≡ s.events → LogStep s t
  opened : (k : String) → get k s.events ≡ none → t.events ≡ put k [] s.events → LogStep s t
  logged :
      (k : String) (es : List JobEvent) (e : JobEvent)
      → get k s.events ≡ some es
      → e.sequence ≡ length es + 1
      → t.events ≡ put k (es ++ e ∷ []) s.events
      → LogStep s t

pub data LogSteps : JobStore → JobStore → Type 0 where
  done : {s : JobStore} → LogSteps s s
  next : {s t u : JobStore} → LogStep s t → LogSteps t u → LogSteps s u

-- The events of a list have the numbers from `n + 1` on.
abbrev pub IsNumbered : ℕ → List JobEvent → Type 0
IsNumbered n [] = Unit
IsNumbered n (e ∷ es) = (e.sequence ≡ n + 1) × IsNumbered (n + 1) es

pub IsNumbered-snoc :
    (n : ℕ) (es : List JobEvent) (e : JobEvent)
    → IsNumbered n es
    → e.sequence ≡ n + length es + 1
    → IsNumbered n (es ++ e ∷ [])
IsNumbered-snoc n [] e h p = (ground (arith, p), tt)
IsNumbered-snoc n (f ∷ es) e h p = (h.0, IsNumbered-snoc (n + 1) es e h.1 (ground (arith, p)))

pub record IsLogged (s : JobStore) : Type 0 where
  pub numbered : (k : String) (es : List JobEvent) → get k s.events ≡ some es → IsNumbered 0 es

pub step-IsLogged : (s t : JobStore) → LogStep s t → IsLogged s → IsLogged t
step-IsLogged s t (same e) i = record { numbered = rw e i.numbered }
step-IsLogged s t (opened k unused e) i = record {
  numbered = λ j es h. elim (put_found k j [] s.events (rw e at h)) [
    | inl (_, new) ↦ rw (← new) tt
    | inr (_, old) ↦ i.numbered j es old
  ];
}
step-IsLogged s t (logged k es e found number added) i = record {
  numbered = λ j fs h. elim (put_found k j (es ++ e ∷ []) s.events (rw added at h)) [
    | inl (_, new) ↦
        rw (← new) (IsNumbered-snoc 0 es e (i.numbered k es found) (ground (arith, number)))
    | inr (_, old) ↦ i.numbered j fs old
  ];
}

pub steps-IsLogged : {s t : JobStore} → LogSteps s t → IsLogged s → IsLogged t
steps-IsLogged done i = i
steps-IsLogged (next {s} {t} one rest) i = steps-IsLogged rest (step-IsLogged s t one i)
