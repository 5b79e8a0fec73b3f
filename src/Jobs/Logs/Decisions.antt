-- ===== src/Jobs/Logs/Decisions.antt =====
-- The calls of `MemoryJobStore` that log an event with a decision, and the reconciliation.
use lil_tweak.Prelude.{
  ℕ, ◌≡◌, refl, ap, ◌⊎◌, inl, inr, false, not, ◌||◌, String, List, [], ◌∷◌, length, find, leb,
  string_Eq, pair_Eq, arith, Bool-cases, Option-cases, Result-cases,
}
use lil_tweak.Prelude.Sorting.{sort_by}
use lil_tweak.Prelude.Table.{get, put, values}
use lil_tweak.Json.{Fields, end}
use lil_tweak.Contracts.{JobState, applying, completed, rejected}
use lil_tweak.State.{no_evidence}
use lil_tweak.Jobs.Model.{Job, JobStore, moved_to, approval_key_Eq}
use lil_tweak.Jobs.Events.{append_event_locked, owned_job, validated_event_data}
use lil_tweak.Jobs.Cancels.{decided_before}
use lil_tweak.Jobs.Approvals.{
  Verdict, awaits, reject_job, approve_job, approval_of, decide_job_idempotent, moved_job, key_of,
  export_action,
}
use lil_tweak.Jobs.Approvals.Exports.{
  Use, Export, consume_export_idempotent, exportable, exported, export_identity, is_token,
}
use lil_tweak.Jobs.Leases.{
  reconcile_active_jobs, reconcile_jobs, recover_job, recovery_target, is_active_job, is_unclaimed,
  approves_job, recovered_jobs, recovery_kind, recovery_data, job_before,
}
use lil_tweak.Jobs.Logs.{LogStep, LogSteps, done, next}
use lil_tweak.Jobs.Logs.Steps.{one, unchanged, append-step}

reject-LogSteps :
    (job : Job) (id owner : String) (v : Verdict) (now : ℕ) (s : JobStore)
    → LogSteps s (reject_job job id owner v now s).1
unfolding reject_job
reject-LogSteps job id owner v now s =
    elim (Result-cases (moved_to job.state rejected no_evidence)) [
      | inr (e, p) ↦ unchanged s _ (ground (arith, p))
      | inl (target, p) ↦ elim (Result-cases (validated_event_data "rejected" end)) [
        | inr (e, q) ↦ unchanged s _ (ground (arith, p, q))
        | inl (checked, q) ↦
            let u = record s {
              jobs = put id (moved_job job target now) s.jobs;
              decisions =
                  put {K = String × String} (owner, v.idempotency_key) (v.request_hash, id)
                    s.decisions;
            } in
            let e : (reject_job job id owner v now s).1
                ≡ (append_event_locked id "rejected" checked now u).1 =
              ground (arith, p, q) in
            rw e (one (append-step id "rejected" checked now s u refl))
      ]
    ]

-- Two events are logged, unless the first fails.
approve-LogSteps :
    (job : Job) (id owner : String) (v : Verdict) (now : ℕ) (s : JobStore)
    → LogSteps s (approve_job job id owner v now s).1
unfolding approve_job
approve-LogSteps job id owner v now s = elim (Result-cases (approval_of job id owner v now s)) [
  | inr (e, p) ↦ unchanged s _ (ground (arith, p))
  | inl ((approval, approved, applied), p) ↦
      let u = record s {
        jobs = put id (record (moved_job job applying now) { approval_consumed = false }) s.jobs;
        approvals = put approval.token_hash approval s.approvals;
        approval_index =
            put {K = String × (ℕ × String)} (key_of approval) approval.token_hash s.approval_index;
        decisions =
            put {K = String × String} (owner, v.idempotency_key) (v.request_hash, id) s.decisions;
      } in
      let first = append-step id "approved" approved now s u refl in
      elim (Result-cases (append_event_locked id "approved" approved now u).0) [
        | inr (e, q) ↦
            let e : (approve_job job id owner v now s).1
                ≡ (append_event_locked id "approved" approved now u).1 =
              ground (arith, p, q) in
            rw e (one first)
        | inl (event, q) ↦
            let e : (approve_job job id owner v now s).1
                ≡ (append_event_locked id "applying" applied now
                    (append_event_locked id "approved" approved now u).1).1 =
              ground (arith, p, q) in
            rw e (next first (one (append-step id "applying" applied now _ _ refl)))
      ]
]

decide-after :
    (id owner : String) (revision : ℕ) (v : Verdict) (now : ℕ) (s : JobStore)
    → ((decide_job_idempotent id owner revision v now s).1 ≡ s)
      ⊎ ((job : Job) × (((decide_job_idempotent id owner revision v now s).1
              ≡ (reject_job job id owner v now s).1)
            ⊎ ((decide_job_idempotent id owner revision v now s).1
                ≡ (approve_job job id owner v now s).1)))
unfolding decide_job_idempotent
decide-after id owner revision v now s =
    elim (Option-cases (decided_before (owner, v.idempotency_key) v.request_hash id s)) [
      | inr (answer, p) ↦ inl (ground (arith, p))
      | inl p ↦ elim (Result-cases (owned_job id owner s)) [
        | inr (e, q) ↦ inl (ground (arith, p, q))
        | inl (job, q) ↦ elim (Bool-cases (awaits job revision v.proposal_digest)) [
          | inr other ↦ inl (ground (arith, p, q, other))
          | inl waits ↦ inr (job, ground (arith, p, q, waits))
        ]
      ]
    ]

pub decide-LogSteps :
    (id owner : String) (revision : ℕ) (v : Verdict) (now : ℕ) (s : JobStore)
    → LogSteps s (decide_job_idempotent id owner revision v now s).1
decide-LogSteps id owner revision v now s = elim (decide-after id owner revision v now s) [
  | inl e ↦ unchanged s _ (ap (λ (z : JobStore). z.events) e)
  | inr (job, inl e) ↦ rw e (reject-LogSteps job id owner v now s)
  | inr (job, inr e) ↦ rw e (approve-LogSteps job id owner v now s)
]

export-events :
    (sha256 : String → String) (u : Use) (x : Export) (now : ℕ) (s : JobStore)
    → ((consume_export_idempotent sha256 u x now s).1.events ≡ s.events)
      ⊎ ((checked : Fields) × (v : JobStore) × (v.events ≡ s.events)
          × ((consume_export_idempotent sha256 u x now s).1
              ≡ (append_event_locked u.job_id "completed" checked now v).1))
unfolding consume_export_idempotent
export-events sha256 u x now s =
    elim (Result-cases
      (exportable (get (sha256 x.approval_token) s.approvals) (get u.job_id s.jobs) u x now)) [
        | inr (e, p) ↦ inl (ground (arith, p))
        | inl ((a, job), p) ↦ elim (Result-cases (validated_event_data "completed" export_action)) [
          | inr (e, q) ↦ inl (ground (arith, p, q))
          | inl (checked, q) ↦ elim (Bool-cases (is_token x.approval_token)) [
            | inr bad ↦ inl (ground (arith, bad))
            | inl good ↦
                elim (Option-cases (get {K = String × String} (export_identity u x) s.decisions)) [
                  | inr (found, r) ↦ inl (ground (arith, good, r))
                  | inl r ↦ elim (Result-cases (moved_to job.state completed no_evidence)) [
                    | inr (e, m) ↦ inl (ground (arith, p, good, r, m))
                    | inl (target, m) ↦ inr (
                      checked,
                      exported (sha256 x.approval_token) a job u x now s,
                      refl,
                      ground (arith, p, q, good, r, m),
                    )
                  ]
                ]
          ]
        ]
      ]

pub export-LogSteps :
    (sha256 : String → String) (u : Use) (x : Export) (now : ℕ) (s : JobStore)
    → LogSteps s (consume_export_idempotent sha256 u x now s).1
export-LogSteps sha256 u x now s = elim (export-events sha256 u x now s) [
  | inl e ↦ unchanged s _ e
  | inr (checked, v, p, e) ↦ rw e (one (append-step u.job_id "completed" checked now s v p))
]

recover-LogStep :
    (job : Job) (target : JobState) (now : ℕ) (s : JobStore)
    → LogStep s (recover_job job target now s).1
unfolding recover_job
recover-LogStep job target now s =
    append-step job.id (recovery_kind target) (recovery_data target) now s _ refl

reconcile_jobs-LogSteps :
    (xs : List Job) (now limit : ℕ) (recovered : List Job) (s : JobStore)
    → LogSteps s (reconcile_jobs xs now limit recovered s).1
unfolding reconcile_jobs
reconcile_jobs-LogSteps [] now limit recovered s = done
reconcile_jobs-LogSteps (x ∷ xs) now limit recovered s =
    elim (Bool-cases (leb limit (length recovered) || not (is_active_job x.state))) [
      | inl skip ↦ rw (reconcile_jobs, skip) (reconcile_jobs-LogSteps xs now limit recovered s)
      | inr go ↦ elim (Bool-cases (not (is_unclaimed (get x.id s.claims) now))) [
        | inl held ↦
            rw (reconcile_jobs, go, held) (reconcile_jobs-LogSteps xs now limit recovered s)
        | inr free ↦
            elim (Option-cases
              (recovery_target x (find (approves_job x) (values s.approvals)) now)) [
                | inl p ↦
                    rw (reconcile_jobs, go, free, p)
                      (reconcile_jobs-LogSteps xs now limit recovered s)
                | inr (target, p) ↦ elim (Result-cases (recover_job x target now s).0) [
                  | inr (e, q) ↦
                      rw (reconcile_jobs, go, free, p, q) (one (recover-LogStep x target now s))
                  | inl (job, q) ↦
                      rw (reconcile_jobs, go, free, p, q)
                        (next (recover-LogStep x target now s) (
                          reconcile_jobs-LogSteps xs now limit (recovered_jobs target job recovered)
                            (recover_job x target now s).1))
                ]
              ]
      ]
    ]

pub reconcile-LogSteps :
    (now limit : ℕ) (s : JobStore) → LogSteps s (reconcile_active_jobs now limit s).1
unfolding reconcile_active_jobs
reconcile-LogSteps now limit s =
    reconcile_jobs-LogSteps (sort_by job_before (values s.jobs)) now limit [] s
