-- ===== src/Jobs/Cancels.antt =====
-- The cancellations of `MemoryJobStore`, and its idempotent decisions.
pub mod Replays
use lil_tweak.Prelude.{
  ℕ, ◌+◌, Bool, true, false, not, ◌&&◌, String, Option, some, none, nat_eq, if◌then◌else◌, ◌==◌,
  string_Eq, pair_Eq, option_Eq, ok, err,
}
use lil_tweak.Prelude.Table.{get, put}
use lil_tweak.Json.{nat, end, field}
use lil_tweak.Contracts.{JobState, awaiting_approval, applying, cancelled}
use lil_tweak.State.{no_evidence}
use lil_tweak.Jobs.Model.{
  idempotency_conflict, stale_revision, Answer, Job, JobStore, Turn, moved_to,
}
use lil_tweak.Jobs.Events.{validated_event_data, append_event_locked, owned_job}
use lil_tweak.Jobs.Updates.{stored_job}

-- `CANCELLED if state in {AWAITING_APPROVAL, APPLYING} else state`
abbrev pub cancel_target : JobState → JobState
cancel_target awaiting_approval = cancelled
cancel_target applying = cancelled
cancel_target state = state

abbrev pub cancelling : Job → ℕ → Job
cancelling job now = record job {
  state = cancel_target job.state;
  cancel_requested = true;
  revision = job.revision + 1;
  updated_at = now;
}

-- The checks that both cancellations make, and the job that they store.
unfoldable pub cancelled_job : String → String → ℕ → ℕ → JobStore → Answer Job
cancelled_job job_id owner expected_revision now s = elim (owned_job job_id owner s) [
  | err e ↦ err e
  | ok job ↦
      if not (nat_eq job.revision expected_revision)
      then err stale_revision
      else elim (moved_to job.state cancelled no_evidence) [
        | err e ↦ err e
        | ok _ ↦ ok (cancelling job now)
      ]
]

unfoldable pub request_cancel : String → String → ℕ → ℕ → JobStore → Turn Job
request_cancel job_id owner expected_revision now s =
    elim (cancelled_job job_id owner expected_revision now s) [
      | err e ↦ (err e, s)
      | ok job ↦ (ok job, record s { jobs = put job_id job s.jobs })
    ]

abbrev pub is_cancelled : JobState → Bool
is_cancelled cancelled = true
is_cancelled _ = false

-- `self._decisions.get(identity)`, compared with this request: nothing, the stored job, or a conflict.
unfoldable pub decided_before : String × String → String → String → JobStore → Option (Answer Job)
decided_before identity request_hash job_id s = elim (get identity s.decisions) [
  | none ↦ none
  | some (hash, decided_id) ↦
      if hash == request_hash && decided_id == job_id
      then some (stored_job job_id s)
      else some (err idempotency_conflict)
]

unfoldable pub request_cancel_idempotent :
    String → String → ℕ → String → String → ℕ → JobStore → Turn Job
request_cancel_idempotent job_id owner expected_revision key request_hash now s =
    let identity : String × String = (owner, key) in
    elim (decided_before identity request_hash job_id s) [
      | some answer ↦ (answer, s)
      | none ↦ elim (cancelled_job job_id owner expected_revision now s) [
        | err e ↦ (err e, s)
        | ok job ↦
            let kind : String =
              if is_cancelled job.state then "cancelled" else "cancel_requested" in
            elim (validated_event_data kind (field "revision" (nat job.revision) end)) [
              | err e ↦ (err e, s)
              | ok checked ↦
                  let (event, after) = append_event_locked job_id kind checked now (record s {
                    jobs = put job_id job s.jobs;
                    decisions = put identity (request_hash, job_id) s.decisions;
                  }) in
                  (elim event [ err e ↦ err e | ok _ ↦ ok job ], after)
            ]
      ]
    ]

unfoldable pub get_decision : String → String → String → JobStore → Answer (Option Job)
get_decision owner key request_hash s = elim (get {K = String × String} (owner, key) s.decisions) [
  | none ↦ ok none
  | some (hash, job_id) ↦
      if not (hash == request_hash)
      then err idempotency_conflict
      else elim (stored_job job_id s) [ err e ↦ err e | ok job ↦ ok (some job) ]
]

unfoldable pub record_decision : String → String → String → String → JobStore → Turn Job
record_decision owner key request_hash job_id s =
    let identity : String × String = (owner, key) in
    elim (owned_job job_id owner s) [
      | err e ↦ (err e, s)
      | ok job ↦
          if elim (get identity s.decisions) [
            | none ↦ false
            | some (hash, decided_id) ↦ not (hash == request_hash && decided_id == job_id)
          ]
          then (err idempotency_conflict, s)
          else (ok job, record s { decisions = put identity (request_hash, job_id) s.decisions })
    ]
