-- ===== src/Jobs/Logs/Kept.antt =====
-- What each call of `MemoryJobStore` does to the approvals that it holds: most calls leave them, and
-- the others store one.
use lil_tweak.Prelude.{
  ℕ, ◌≡◌, refl, ◌⊎◌, inl, inr, String, some, List, [], ◌∷◌, find, string_Eq, pair_Eq, arith,
  Option-cases, Result-cases, Bool-cases, ◌==◌, none, false,
}
use lil_tweak.Prelude.Sorting.{sort_by}
use lil_tweak.Prelude.Table.{get, put, values}
use lil_tweak.Json.{Fields}
use lil_tweak.Contracts.{JobState, completed}
use lil_tweak.State.{no_evidence}
use lil_tweak.Jobs.Model.{Job, JobLease, Approval, JobStore, approval_key_Eq, moved_to}
use lil_tweak.Jobs.Events.{append_event_locked, append_event, owned_job}
use lil_tweak.Jobs.Nonces.{consume_nonce}
use lil_tweak.Jobs.Updates.{JobRequest, create_job, JobChange, update_job, transition_job}
use lil_tweak.Jobs.Cancels.{
  request_cancel, request_cancel_idempotent, decided_before, record_decision,
}
use lil_tweak.Jobs.Approvals.{
  Verdict, awaits, decide_job_idempotent, reject_job, approve_job, approval_of,
}
use lil_tweak.Jobs.Approvals.Granted.{granted-eq}
use lil_tweak.Jobs.Approvals.Verdicts.{approval_of-granted}
use lil_tweak.Jobs.Approvals.Exports.{
  Use, Export, create_approval, used, consume_approval, consume_export_idempotent, exportable,
  export_identity, is_token,
}
use lil_tweak.Jobs.Leases.{
  claim_job, renew_claim, release_claim, reconcile_active_jobs, reconcile_jobs, recover_job,
  recovery_target, approves_job, recovered_jobs, job_before,
}

append-approvals :
    (id kind : String) (d : Fields) (now : ℕ) (s : JobStore)
    → (append_event_locked id kind d now s).1.approvals ≡ s.approvals
unfolding append_event_locked
append-approvals id kind d now s = ground arith

pub nonce-approvals :
    (k n : String) (now later : ℕ) (s : JobStore)
    → (consume_nonce k n now later s).1.approvals ≡ s.approvals
unfolding consume_nonce
nonce-approvals k n now later s = ground arith

pub claim-approvals :
    (id owner worker : String) (seconds now : ℕ) (s : JobStore)
    → (claim_job id owner worker seconds now s).1.approvals ≡ s.approvals
unfolding claim_job
claim-approvals id owner worker seconds now s = ground arith

pub renew-approvals :
    (l : JobLease) (seconds now : ℕ) (s : JobStore)
    → (renew_claim l seconds now s).1.approvals ≡ s.approvals
unfolding renew_claim
renew-approvals l seconds now s = ground arith

pub release-approvals : (l : JobLease) (s : JobStore) → (release_claim l s).approvals ≡ s.approvals
unfolding release_claim
release-approvals l s = ground arith

pub create-approvals :
    (fingerprint : JobRequest → String) (r : JobRequest) (id : String) (now : ℕ) (s : JobStore)
    → (create_job fingerprint r id now s).1.approvals ≡ s.approvals
unfolding create_job
create-approvals fingerprint r id now s = ground arith

pub update-approvals :
    (id owner : String) (revision : ℕ) (c : JobChange) (now : ℕ) (s : JobStore)
    → (update_job id owner revision c now s).1.approvals ≡ s.approvals
unfolding update_job
update-approvals id owner revision c now s = ground arith

pub transition-approvals :
    (id owner : String) (revision : ℕ) (c : JobChange) (kind : String) (d : Fields) (now : ℕ)
    (s : JobStore)
    → (transition_job id owner revision c kind d now s).1.approvals ≡ s.approvals
unfolding transition_job update_job append_event_locked
transition-approvals id owner revision c kind d now s = ground arith

pub request-approvals :
    (id owner : String) (revision now : ℕ) (s : JobStore)
    → (request_cancel id owner revision now s).1.approvals ≡ s.approvals
unfolding request_cancel
request-approvals id owner revision now s = ground arith

pub cancel-approvals :
    (id owner : String) (revision : ℕ) (key hash : String) (now : ℕ) (s : JobStore)
    → (request_cancel_idempotent id owner revision key hash now s).1.approvals ≡ s.approvals
unfolding request_cancel_idempotent append_event_locked
cancel-approvals id owner revision key hash now s = ground arith

pub log-approvals :
    (id owner kind : String) (d : Fields) (now : ℕ) (s : JobStore)
    → (append_event id owner kind d now s).1.approvals ≡ s.approvals
unfolding append_event append_event_locked
log-approvals id owner kind d now s = ground arith

pub record-approvals :
    (owner key hash id : String) (s : JobStore)
    → (record_decision owner key hash id s).1.approvals ≡ s.approvals
unfolding record_decision
record-approvals owner key hash id s = ground arith

recover-approvals :
    (job : Job) (target : JobState) (now : ℕ) (s : JobStore)
    → (recover_job job target now s).1.approvals ≡ s.approvals
unfolding recover_job append_event_locked
recover-approvals job target now s = ground arith

reconcile_jobs-approvals :
    (xs : List Job) (now limit : ℕ) (recovered : List Job) (s : JobStore)
    → (reconcile_jobs xs now limit recovered s).1.approvals ≡ s.approvals
unfolding reconcile_jobs
reconcile_jobs-approvals [] now limit recovered s = refl
reconcile_jobs-approvals (x ∷ xs) now limit recovered s =
    elim (Option-cases (recovery_target x (find (approves_job x) (values s.approvals)) now)) [
      | inl p ↦ ground (arith, p, reconcile_jobs-approvals xs now limit recovered s)
      | inr (target, p) ↦ elim (Result-cases (recover_job x target now s).0) [
        | inr (e, q) ↦ ground (
          arith,
          p,
          q,
          recover-approvals x target now s,
          reconcile_jobs-approvals xs now limit recovered s,
        )
        | inl (job, q) ↦ ground (
          arith,
          p,
          q,
          recover-approvals x target now s,
          reconcile_jobs-approvals xs now limit recovered s,
          reconcile_jobs-approvals xs now limit (recovered_jobs target job recovered)
              (recover_job x target now s).1,
        )
      ]
    ]

pub reconcile-approvals :
    (now limit : ℕ) (s : JobStore) → (reconcile_active_jobs now limit s).1.approvals ≡ s.approvals
unfolding reconcile_active_jobs
reconcile-approvals now limit s =
    reconcile_jobs-approvals (sort_by job_before (values s.jobs)) now limit [] s

pub approve-approvals :
    (a : Approval) (now : ℕ) (s : JobStore)
    → ((create_approval a now s).1.approvals ≡ s.approvals)
      ⊎ ((create_approval a now s).1.approvals
          ≡ put a.token_hash (record a { consumed = false; consumed_at = none }) s.approvals)
unfolding create_approval
approve-approvals a now s = ground arith

pub use-approvals :
    (sha256 : String → String) (token : String) (u : Use) (now : ℕ) (s : JobStore)
    → ((consume_approval sha256 token u now s).1.approvals ≡ s.approvals)
      ⊎ ((b : Approval) × ((consume_approval sha256 token u now s).1.approvals
            ≡ put (sha256 token) (used b now) s.approvals))
unfolding consume_approval
use-approvals sha256 token u now s = elim (Result-cases (consume_approval sha256 token u now s).0) [
  | inr (e, p) ↦ inl (ground (arith, p))
  | inl (a, p) ↦ elim (Option-cases (get (sha256 token) s.approvals)) [
    | inl missing ↦ inl (ground (arith, missing))
    | inr (b, found) ↦ inr (b, ground (arith, p, found))
  ]
]

pub export-approvals :
    (sha256 : String → String) (u : Use) (x : Export) (now : ℕ) (s : JobStore)
    → ((consume_export_idempotent sha256 u x now s).1.approvals ≡ s.approvals)
      ⊎ ((b : Approval) × ((consume_export_idempotent sha256 u x now s).1.approvals
            ≡ put (sha256 x.approval_token) (used b now) s.approvals))
unfolding consume_export_idempotent append_event_locked
export-approvals sha256 u x now s =
    elim (Result-cases
      (exportable (get (sha256 x.approval_token) s.approvals) (get u.job_id s.jobs) u x now)) [
        | inr (e, p) ↦ inl (ground (arith, p))
        | inl ((a, job), p) ↦ elim (Bool-cases (is_token x.approval_token)) [
          | inr bad ↦ inl (ground (arith, bad))
          | inl good ↦
              elim (Option-cases (get {K = String × String} (export_identity u x) s.decisions)) [
                | inr (found, r) ↦ inl (ground (arith, good, r))
                | inl r ↦ elim (Result-cases (moved_to job.state completed no_evidence)) [
                  | inr (e, m) ↦ inl (ground (arith, p, good, r, m))
                  | inl (target, m) ↦ inr (a, ground (arith, p, good, r, m))
                ]
              ]
        ]
      ]

reject-approvals :
    (job : Job) (id owner : String) (v : Verdict) (now : ℕ) (s : JobStore)
    → (reject_job job id owner v now s).1.approvals ≡ s.approvals
unfolding reject_job append_event_locked
reject-approvals job id owner v now s = ground arith

-- An approving verdict stores an approval under the hash that it carries, or none.
approve_job-approvals :
    (job : Job) (id owner : String) (v : Verdict) (now : ℕ) (s : JobStore)
    → ((approve_job job id owner v now s).1.approvals ≡ s.approvals)
      ⊎ ((b : Approval) × (v.approval_token_hash ≡ some b.token_hash)
          × ((approve_job job id owner v now s).1.approvals ≡ put b.token_hash b s.approvals))
unfolding approve_job append_event_locked
approve_job-approvals job id owner v now s =
    elim (Result-cases (approval_of job id owner v now s)) [
      | inr (e, p) ↦ inl (ground (arith, p))
      | inl ((b, approved, applied), p) ↦
          let grant = approval_of-granted job id owner v now s b approved applied p in
          let facts = granted-eq job id owner v now b grant in inr (b, facts.7, ground (arith, p))
    ]

pub decide-approvals :
    (id owner : String) (revision : ℕ) (v : Verdict) (now : ℕ) (s : JobStore)
    → ((decide_job_idempotent id owner revision v now s).1.approvals ≡ s.approvals)
      ⊎ ((b : Approval) × (v.approval_token_hash ≡ some b.token_hash)
          × ((decide_job_idempotent id owner revision v now s).1.approvals
              ≡ put b.token_hash b s.approvals))
unfolding decide_job_idempotent
decide-approvals id owner revision v now s =
    elim (Option-cases (decided_before (owner, v.idempotency_key) v.request_hash id s)) [
      | inr (answer, p) ↦ inl (ground (arith, p))
      | inl p ↦ elim (Result-cases (owned_job id owner s)) [
        | inr (e, q) ↦ inl (ground (arith, p, q))
        | inl (job, q) ↦ elim (Bool-cases (awaits job revision v.proposal_digest)) [
          | inr other ↦ inl (ground (arith, p, q, other))
          | inl waits ↦ elim (approve_job-approvals job id owner v now s) [
            | inl e ↦ inl (ground (arith, p, q, waits, e, reject-approvals job id owner v now s))
            | inr (b, brought, e) ↦ elim (Bool-cases (v.decision == "reject")) [
              | inl rejects ↦
                  inl (ground (arith, p, q, waits, rejects, reject-approvals job id owner v now s))
              | inr approves ↦ inr (b, brought, ground (arith, p, q, waits, approves, e))
            ]
          ]
        ]
      ]
    ]
