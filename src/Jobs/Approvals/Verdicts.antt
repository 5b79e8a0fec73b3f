-- ===== src/Jobs/Approvals/Verdicts.antt =====
-- What a verdict of `decide_job_idempotent` finds and leaves.
use lil_tweak.Prelude.{
  ℕ, ◌<◌, ◌≡◌, ap, ◌⊎◌, inl, inr, true, false, String, some, none, ◌==◌, string_Eq, pair_Eq,
  option_Eq, ok, arith, beq_refl, Result-cases, Option-cases, Bool-cases, ◌∙◌,
}
use lil_tweak.Prelude.Table.{get, put, get-put_self}
use lil_tweak.Json.{Fields, end}
use lil_tweak.Contracts.{awaiting_approval, applying, rejected}
use lil_tweak.State.{no_evidence}
use lil_tweak.Jobs.Model.{Job, Approval, JobStore, moved_to, approval_key_Eq}
use lil_tweak.Jobs.Events.{owned_job, append_event_locked, validated_event_data}
use lil_tweak.Jobs.Cancels.{decided_before}
use lil_tweak.Jobs.Approvals.{
  Verdict, granted, approval_of, awaits, approve_job, reject_job, decide_job_idempotent, moved_job,
}
use lil_tweak.Jobs.Approvals.Granted.{IsShown, granted-eq, granted-IsShown, owned_job-eq, awaits-eq}

-- The decision is on record, and the job is stored.
pub record IsDecided (id owner : String) (v : Verdict) (t : JobStore) (j : Job) : Type 0 where
  pub recorded :
      get {K = String × String} (owner, v.idempotency_key) t.decisions ≡ some (v.request_hash, id)
  pub stored : get id t.jobs ≡ some j

append_event_locked-rest :
    (job_id kind : String) (d : Fields) (now : ℕ) (s : JobStore)
    → ((append_event_locked job_id kind d now s).1.decisions ≡ s.decisions)
      × ((append_event_locked job_id kind d now s).1.jobs ≡ s.jobs)
      × ((append_event_locked job_id kind d now s).1.approvals ≡ s.approvals)
unfolding append_event_locked
append_event_locked-rest job_id kind d now s = ground arith

reject-IsDecided :
    (job : Job) (id owner : String) (v : Verdict) (now : ℕ) (s t : JobStore) (j : Job)
    → reject_job job id owner v now s ≡ (ok j, t)
    → IsDecided id owner v t j
unfolding reject_job append_event_locked
reject-IsDecided job id owner v now s t j h =
    elim (Result-cases (moved_to job.state rejected no_evidence)) [
      | inr (e, p) ↦ ground (arith, h, p)
      | inl (target, p) ↦ elim (Result-cases (validated_event_data "rejected" end)) [
        | inr (e, q) ↦ ground (arith, h, p, q)
        | inl (checked, q) ↦ record {
          recorded = ground (
            arith,
            h,
            p,
            q,
            get-put_self {K = String × String} (owner, v.idempotency_key) (v.request_hash, id)
                s.decisions,
          );
          stored = ground (arith, h, p, q, get-put_self id (moved_job job target now) s.jobs);
        }
      ]
    ]

pub approval_of-granted :
    (job : Job) (id owner : String) (v : Verdict) (now : ℕ) (s : JobStore) (a : Approval)
    (approved applied : Fields)
    → approval_of job id owner v now s ≡ ok (a, approved, applied)
    → granted job id owner v now ≡ ok a
unfolding approval_of
approval_of-granted job id owner v now s a approved applied h =
    elim (Result-cases (granted job id owner v now)) [
      | inl (b, p) ↦ ground (arith, h, p)
      | inr (e, p) ↦ ground (arith, h, p)
    ]

-- What an approval finds and leaves.
approve-after :
    (job : Job) (id owner : String) (v : Verdict) (now : ℕ) (s t : JobStore) (j : Job)
    → approve_job job id owner v now s ≡ (ok j, t)
    → (approval : Approval) × (granted job id owner v now ≡ ok approval)
      × (j ≡ record (moved_job job applying now) { approval_consumed = false })
      × (t.decisions
          ≡ put {K = String × String} (owner, v.idempotency_key) (v.request_hash, id) s.decisions)
      × (t.jobs ≡ put id j s.jobs)
      × (t.approvals ≡ put approval.token_hash approval s.approvals)
unfolding approve_job append_event_locked
approve-after job id owner v now s t j h = elim (Result-cases (approval_of job id owner v now s)) [
  | inr (e, p) ↦ ground (arith, h, p)
  | inl ((approval, approved, applied), p) ↦ (
    approval,
    approval_of-granted job id owner v now s approval approved applied p,
    ground (arith, h, p),
    ground (arith, h, p),
    ground (arith, h, p),
    ground (arith, h, p),
  )
]

-- How a verdict without a decision on record comes to its answer.
decide-ok :
    (id owner : String) (revision : ℕ) (v : Verdict) (now : ℕ) (s t : JobStore) (j : Job)
    → decide_job_idempotent id owner revision v now s ≡ (ok j, t)
    → (((decided_before (owner, v.idempotency_key) v.request_hash id s ≡ some (ok j)) × (t ≡ s)))
      ⊎ ((job : Job) × (owned_job id owner s ≡ ok job)
          × (awaits job revision v.proposal_digest ≡ true)
          × (((reject_job job id owner v now s ≡ (ok j, t)) × ((v.decision == "reject") ≡ true))
              ⊎ ((approve_job job id owner v now s ≡ (ok j, t))
                  × ((v.decision == "reject") ≡ false))))
unfolding decide_job_idempotent
decide-ok id owner revision v now s t j h =
    elim (Option-cases (decided_before (owner, v.idempotency_key) v.request_hash id s)) [
      | inr (answer, p) ↦ inl (ground (arith, h, p), ground (arith, h, p))
      | inl p ↦ elim (Result-cases (owned_job id owner s)) [
        | inr (e, q) ↦ ground (arith, h, p, q)
        | inl (job, q) ↦ elim (Bool-cases (awaits job revision v.proposal_digest)) [
          | inr other ↦ ground (arith, h, p, q, other)
          | inl waits ↦ inr (job, q, waits, ground (arith, h, p, q, waits))
        ]
      ]
    ]

decided-answer :
    (id owner : String) (v : Verdict) (t : JobStore) (j : Job)
    → IsDecided id owner v t j
    → decided_before (owner, v.idempotency_key) v.request_hash id t ≡ some (ok j)
unfolding decided_before
decided-answer id owner v t j d =
    ground (arith, d.recorded, d.stored, beq_refl v.request_hash, beq_refl id)

replayed :
    (id owner : String) (revision : ℕ) (v : Verdict) (now : ℕ) (t : JobStore) (j : Job)
    → decided_before (owner, v.idempotency_key) v.request_hash id t ≡ some (ok j)
    → decide_job_idempotent id owner revision v now t ≡ (ok j, t)
unfolding decide_job_idempotent
replayed id owner revision v now t j h = ground (arith, h)

-- A verdict that was accepted is answered with the same job when it is sent again, whatever revision it expects then and at any time, and changes nothing the second time.
pub verdict_is_idempotent :
    (id owner : String) (revision revision' : ℕ) (v : Verdict) (now now' : ℕ) (s t : JobStore)
    (j : Job)
    → decide_job_idempotent id owner revision v now s ≡ (ok j, t)
    → decide_job_idempotent id owner revision' v now' t ≡ (ok j, t)
verdict_is_idempotent id owner revision revision' v now now' s t j h =
    replayed id owner revision' v now' t j (elim (decide-ok id owner revision v now s t j h) [
      | inl (before, same) ↦ rw same before
      | inr (job, found, waits, inl (rejects, _)) ↦
          decided-answer id owner v t j (reject-IsDecided job id owner v now s t j rejects)
      | inr (job, found, waits, inr (approves, _)) ↦
          let (a, _, _, decisions, jobs, _) = approve-after job id owner v now s t j approves in
          decided-answer id owner v t j (record {
            recorded = rw decisions (
                get-put_self {K = String × String} (owner, v.idempotency_key) (v.request_hash, id)
                  s.decisions);
            stored = rw jobs (get-put_self id j s.jobs);
          })
    ])

-- What an approving verdict found and left.
pub record IsApproved (id owner : String) (revision : ℕ) (v : Verdict) (now : ℕ) (s t : JobStore)
    (j : Job) : Type 0 where
  pub job : Job
  pub approval : Approval
  pub found : get id s.jobs ≡ some job
  pub owned : job.owner_id ≡ owner
  pub was_awaiting : job.state ≡ awaiting_approval
  pub at_revision : job.revision ≡ revision
  pub at_proposal : job.proposal_digest ≡ some v.proposal_digest
  pub at_source : job.source_digest ≡ some approval.source_digest
  pub now_applying : j.state ≡ applying
  pub left : get id t.jobs ≡ some j
  pub stored : get approval.token_hash t.approvals ≡ some approval
  pub of_token : v.approval_token_hash ≡ some approval.token_hash
  pub of_job : approval.job_id ≡ id
  pub of_owner : approval.owner_id ≡ owner
  pub of_revision : approval.revision ≡ revision
  pub of_proposal : approval.proposal_digest ≡ v.proposal_digest
  pub unused : approval.consumed ≡ false
  pub lasting : now < approval.expires_at
  pub as_shown : IsShown v job approval

-- A verdict other than `reject`, without a decision on record, is accepted only for a job of this owner that waits for approval of this proposal at the expected revision; it moves the job to `applying` and stores, under the token's hash that it brings, an approval of exactly this job, owner, revision, proposal and source, not used and not yet expired, with the policy and the resources of the proposal that was shown, which equals the one on record.
pub approval_is_bound :
    (id owner : String) (revision : ℕ) (v : Verdict) (now : ℕ) (s t : JobStore) (j : Job)
    → decide_job_idempotent id owner revision v now s ≡ (ok j, t)
    → decided_before (owner, v.idempotency_key) v.request_hash id s ≡ none
    → (v.decision == "reject") ≡ false
    → IsApproved id owner revision v now s t j
approval_is_bound id owner revision v now s t j h first approves =
    elim (decide-ok id owner revision v now s t j h) [
      | inl (before, _) ↦ cc (first, before)
      | inr (job, found, waits, inl (_, rejects)) ↦ cc (approves, rejects)
      | inr (job, found, waits, inr (accepted, _)) ↦
          let (a, grant, made, _, jobs, approvals) =
            approve-after job id owner v now s t j accepted in
          let (proposal, of_id, of_owner, of_revision, source, unused, lasting, token) =
            granted-eq job id owner v now a grant in
          let (there, owned) = owned_job-eq id owner s job found in
          let (waiting, at_revision, at_proposal) =
            awaits-eq job revision v.proposal_digest waits in
          record {
            job = job;
            approval = a;
            found = there;
            owned = owned;
            was_awaiting = waiting;
            at_revision = at_revision;
            at_proposal = at_proposal;
            at_source = source;
            now_applying = ap (λ (z : Job). z.state) made;
            left = rw jobs (get-put_self id j s.jobs);
            stored = rw approvals (get-put_self a.token_hash a s.approvals);
            of_token = token;
            of_job = of_id;
            of_owner = of_owner;
            of_revision = of_revision ∙ at_revision;
            of_proposal = proposal;
            unused = unused;
            lasting = lasting;
            as_shown = granted-IsShown job id owner v now a grant;
          }
    ]
