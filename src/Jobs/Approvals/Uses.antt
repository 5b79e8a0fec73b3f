-- ===== src/Jobs/Approvals/Uses.antt =====
-- The uses of an approval: the state before and after, and approvals that were used before.
use lil_tweak.Prelude.{
  ℕ, ◌≡◌, ap, inl, inr, true, false, String, Option, some, none, string_Eq, pair_Eq, option_Eq, ok,
  err, arith, Result-cases, ◌<◌, ◌==◌, eq_iff, false,
}
use lil_tweak.Prelude.Table.{get, put, get-put_self}
use lil_tweak.Contracts.{applying, completed}
use lil_tweak.Jobs.Model.{invalid_approval, Job, Approval, JobStore}
use lil_tweak.Jobs.Events.{append_event_locked}
use lil_tweak.Json.Equality.{fields_equal}
use lil_tweak.Jobs.Approvals.{moved_job}
use lil_tweak.Jobs.Approvals.Exports.{
  Use, has_evidence, covers, stands_at, used, consume_approval, Export, exportable,
  consume_export_idempotent, exported, is_applying_job, export_identity,
}
use lil_tweak.Jobs.Approvals.Covered.{
  IsDescribed, has_evidence-IsDescribed, covers-eq, stands_at-eq, applying-eq,
}

pub consume_approval-after :
    (sha256 : String → String) (token : String) (u : Use) (now : ℕ) (s t : JobStore) (a : Approval)
    → consume_approval sha256 token u now s ≡ (ok a, t)
    → (b : Approval) × (get (sha256 token) s.approvals ≡ some b)
      × (covers b u now ≡ true)
      × (a ≡ used b now)
      × (t ≡ record s { approvals = put (sha256 token) a s.approvals })
unfolding consume_approval
consume_approval-after sha256 token u now s t a h = ground (arith, h)

spent-covers : (a : Approval) (u : Use) (now : ℕ) → a.consumed ≡ true → covers a u now ≡ false
unfolding covers
spent-covers a u now h = ground (arith, h)

pub spent-consume :
    (sha256 : String → String) (token : String) (u : Use) (now : ℕ) (s : JobStore) (a : Approval)
    → get (sha256 token) s.approvals ≡ some a
    → a.consumed ≡ true
    → consume_approval sha256 token u now s ≡ (err invalid_approval, s)
unfolding consume_approval
spent-consume sha256 token u now s a found spent = ground (arith, found, spent-covers a u now spent)

-- What the first export under an approval found and left.
pub record IsExported (sha256 : String → String) (u : Use) (x : Export) (now : ℕ) (s t : JobStore)
    (j : Job) : Type 0 where
  pub approval : Approval
  pub job : Job
  pub found : get (sha256 x.approval_token) s.approvals ≡ some approval
  pub there : get u.job_id s.jobs ≡ some job
  pub unused : approval.consumed ≡ false
  pub lasting : now < approval.expires_at
  pub of_owner : approval.owner_id ≡ u.owner_id
  pub of_job : approval.job_id ≡ u.job_id
  pub of_proposal : approval.proposal_digest ≡ u.proposal_digest
  pub of_source : approval.source_digest ≡ u.source_digest
  pub of_policy : approval.policy_version ≡ u.policy_version
  pub of_profile : fields_equal approval.resource_profile u.resource_profile ≡ true
  pub to_export : approval.action ≡ "export_patch"
  pub to_owner : approval.target ≡ "owner_download"
  pub owned : job.owner_id ≡ u.owner_id
  pub at_revision : job.revision ≡ u.revision
  pub at_proposal : job.proposal_digest ≡ some u.proposal_digest
  pub at_source : job.source_digest ≡ some u.source_digest
  pub was_applying : job.state ≡ applying
  pub not_exported : job.approval_consumed ≡ false
  pub described : IsDescribed job x
  pub completes : j.state ≡ completed
  pub spends : get (sha256 x.approval_token) t.approvals ≡ some (used approval now)
  pub stored : get u.job_id t.jobs ≡ some j

exportable-eq :
    (approval : Option Approval) (current : Option Job) (u : Use) (x : Export) (now : ℕ)
    (a : Approval) (job : Job)
    → exportable approval current u x now ≡ ok (a, job)
    → (approval ≡ some a)
      × (current ≡ some job)
      × (covers a u now ≡ true)
      × (stands_at job u ≡ true)
      × (is_applying_job job.state ≡ true)
      × ((a.action == "export_patch") ≡ true)
      × ((a.target == "owner_download") ≡ true)
      × (job.approval_consumed ≡ false)
      × (has_evidence job x ≡ ok tt)
unfolding exportable
exportable-eq approval current u x now a job h = ground (arith, h)

export-after :
    (sha256 : String → String) (u : Use) (x : Export) (now : ℕ) (s t : JobStore) (j : Job)
    → consume_export_idempotent sha256 u x now s ≡ (ok j, t)
    → get {K = String × String} (export_identity u x) s.decisions ≡ none
    → (a : Approval) × (job : Job) × (exportable
          (get (sha256 x.approval_token) s.approvals)
          (get u.job_id s.jobs)
          u
          x
          now
        ≡ ok (a, job))
      × (j ≡ record (moved_job job completed now) { approval_consumed = true })
      × (t.approvals ≡ (exported (sha256 x.approval_token) a job u x now s).approvals)
      × (t.jobs ≡ (exported (sha256 x.approval_token) a job u x now s).jobs)
unfolding consume_export_idempotent append_event_locked
export-after sha256 u x now s t j h fresh =
    elim (Result-cases
      (exportable (get (sha256 x.approval_token) s.approvals) (get u.job_id s.jobs) u x now)) [
        | inl ((a, job), p) ↦ (
          a,
          job,
          p,
          ground (arith, h, fresh, p),
          ground (arith, h, fresh, p),
          ground (arith, h, fresh, p),
        )
        | inr (e, p) ↦ ground (arith, h, fresh, p)
      ]

-- An export that `consume_export_idempotent` makes, its decision not being on record, needs an approval that was not consumed, has not expired and names this owner, job, proposal, source and policy and the export to the owner, and a job of this owner that is applying and not yet exported at the expected revision with this proposal and source, whose manifest names the patch with the digest and size asked for; it marks the approval as consumed and stores the job as completed.
pub export_needs_approval :
    (sha256 : String → String) (u : Use) (x : Export) (now : ℕ) (s t : JobStore) (j : Job)
    → consume_export_idempotent sha256 u x now s ≡ (ok j, t)
    → get {K = String × String} (export_identity u x) s.decisions ≡ none
    → IsExported sha256 u x now s t j
export_needs_approval sha256 u x now s t j h fresh =
    let (a, job, p, made, approvals, jobs) = export-after sha256 u x now s t j h fresh in
    let (found, there, covered, standing, was_applying, action, target, unexported, evidence) =
      exportable-eq (get (sha256 x.approval_token) s.approvals) (get u.job_id s.jobs) u x now a job
        p in
    let (unused, lasting, of_owner, of_job, of_proposal, of_source, of_policy, of_profile) =
      covers-eq a u now covered in
    let (owned, at_revision, at_proposal, at_source) = stands_at-eq job u standing in
    record {
      approval = a;
      job = job;
      found = found;
      there = there;
      unused = unused;
      lasting = lasting;
      of_owner = of_owner;
      of_job = of_job;
      of_proposal = of_proposal;
      of_source = of_source;
      of_policy = of_policy;
      of_profile = of_profile;
      to_export = (eq_iff a.action "export_patch").0 action;
      to_owner = (eq_iff a.target "owner_download").0 target;
      owned = owned;
      at_revision = at_revision;
      at_proposal = at_proposal;
      at_source = at_source;
      was_applying = applying-eq job.state was_applying;
      not_exported = unexported;
      described = has_evidence-IsDescribed job x evidence;
      completes = ap (λ (z : Job). z.state) made;
      spends = rw approvals (get-put_self (sha256 x.approval_token) (used a now) s.approvals);
      stored = rw jobs (rw (← made) (get-put_self u.job_id j s.jobs));
    }

spent-exportable :
    (a : Approval) (current : Option Job) (u : Use) (x : Export) (now : ℕ)
    → a.consumed ≡ true
    → exportable (some a) current u x now ≡ err invalid_approval
unfolding exportable
spent-exportable a current u x now spent = ground (arith, spent-covers a u now spent)

pub spent-export :
    (sha256 : String → String) (u : Use) (x : Export) (now : ℕ) (s : JobStore) (a : Approval)
    → get (sha256 x.approval_token) s.approvals ≡ some a
    → a.consumed ≡ true
    → get {K = String × String} (export_identity u x) s.decisions ≡ none
    → consume_export_idempotent sha256 u x now s ≡ (err invalid_approval, s)
unfolding consume_export_idempotent
spent-export sha256 u x now s a found spent fresh =
    ground (arith, found, fresh, spent-exportable a (get u.job_id s.jobs) u x now spent)
