-- ===== src/Jobs/Approvals.antt =====
-- Approvals in `MemoryJobStore`: `decide_job_idempotent`, `create_approval`, `consume_approval` and
-- `consume_export_idempotent`.
pub mod Exports
pub mod Uses
pub mod Granted
pub mod Covered
pub mod Verdicts
use lil_tweak.Prelude.{
  ℕ, ◌+◌, Bool, true, false, not, ◌&&◌, ◌||◌, String, Option, some, none, List, [], ◌∷◌, any, all,
  length, leb, ltb, nat_eq, if◌then◌else◌, ◌==◌, string_Eq, nat_Eq, pair_Eq, option_Eq, Result, ok,
  err, ◌>>=◌, ◌>>◌, guard,
}
use lil_tweak.Prelude.Text.{codes, is_upper, is_lower, is_digit, is_hex_text}
use lil_tweak.Prelude.Table.{get, put}
use lil_tweak.Json.{Json, Fields, bool, nat, text, obj, end, field, get_field, is_text}
use lil_tweak.Json.Equality.{fields_equal}
use lil_tweak.Contracts.{JobState, awaiting_approval, applying, completed, rejected}
use lil_tweak.State.{Evidence, no_evidence}
use lil_tweak.Jobs.Model.{
  StoreError, idempotency_conflict, stale_revision, invalid_approval, Answer, Job, JobEvent,
  Approval, JobStore, approval_key_Eq, Turn, moved_to,
}
use lil_tweak.Jobs.Events.{validated_event_data, append_event_locked, owned_job}
use lil_tweak.Jobs.Updates.{stored_job}
use lil_tweak.Jobs.Cancels.{decided_before}

-- The keyword arguments of `decide_job_idempotent` after the owner and the revision.
pub record Verdict : Type 0 where
  pub idempotency_key : String
  pub request_hash : String
  pub decision : String
  pub proposal_digest : String
  pub approval_proposal : Option Fields
  pub approval_token_hash : Option String
  pub expires_at : Option ℕ

abbrev is_awaiting : JobState → Bool
is_awaiting awaiting_approval = true
is_awaiting _ = false

abbrev pub text_of : Option Json → Option String
text_of (some (text t)) = some t
text_of _ = none

abbrev pub fields_of : Option Json → Option Fields
fields_of (some (obj d)) = some d
fields_of _ = none

-- The proposal that is approved is the one on record, for this digest and source.
unfoldable pub proposal_fits : Fields → Fields → String → String → Bool
proposal_fits shown recorded digest source =
    fields_equal shown recorded
    && is_text "export_patch" (get_field "action" shown)
    && is_text "owner_download" (get_field "target" shown)
    && is_text digest (get_field "proposalDigest" shown)
    && is_text source (get_field "sourceDigest" shown)

-- What is missing makes the approval invalid.
abbrev pub required : {A : Type 0} → Option A → Answer A
required none = err invalid_approval
required (some a) = ok a

-- The tests of an approving verdict, and the approval that it grants.
unfoldable pub granted : Job → String → String → Verdict → ℕ → Answer Approval
unfolding proposal_fits
granted job job_id owner v now = do
  guard (v.decision == "approve") invalid_approval
  shown ← required v.approval_proposal
  recorded ← required job.approval_proposal
  source ← required job.source_digest
  policy ← required (text_of (get_field "policyVersion" shown))
  profile ← required (fields_of (get_field "resourceProfile" shown))
  token ← required v.approval_token_hash
  expires ← required v.expires_at
  guard (proposal_fits shown recorded v.proposal_digest source) invalid_approval
  guard (is_hex_text 64 token && ltb now expires) invalid_approval
  ok (record {
    token_hash = token;
    job_id = job_id;
    owner_id = owner;
    revision = job.revision;
    proposal_digest = v.proposal_digest;
    source_digest = source;
    action = "export_patch";
    target = "owner_download";
    policy_version = policy;
    resource_profile = profile;
    expires_at = expires;
    consumed = false;
    consumed_at = none;
  })

-- What an approval hands to `transition`.
abbrev pub approved_evidence : String → Evidence
approved_evidence digest = record {
  proposal_digest = some digest;
  has_manifest = false;
  approved_digest = some digest;
  approval_recorded = true;
  approval_consumed = false;
}

abbrev pub key_of : Approval → String × (ℕ × String)
key_of a = (a.job_id, (a.revision, a.proposal_digest))

abbrev pub is_fresh_key : Approval → JobStore → Bool
is_fresh_key a s = elim (get {K = String × (ℕ × String)} (key_of a) s.approval_index) [
  | none ↦ true
  | some _ ↦ false
]

abbrev pub approved_fields : Approval → Fields
approved_fields a = field "revision" (nat a.revision) (
    field "proposal_digest" (text a.proposal_digest)
      (field "source_digest" (text a.source_digest) (field "expires_at" (nat a.expires_at) end)))

abbrev pub export_action : Fields
export_action = field "action" (text "export_patch") end

-- The job that is stored with a decision.
abbrev pub moved_job : Job → JobState → ℕ → Job
moved_job job target now = record job {
  state = target;
  revision = job.revision + 1;
  updated_at = now;
}

-- The rejecting half of `decide_job_idempotent`.
unfoldable pub reject_job : Job → String → String → Verdict → ℕ → JobStore → Turn Job
reject_job job job_id owner v now s = elim (moved_to job.state rejected no_evidence) [
  | err e ↦ (err e, s)
  | ok target ↦ elim (validated_event_data "rejected" end) [
    | err e ↦ (err e, s)
    | ok checked ↦
        let updated = moved_job job target now in
        let (event, after) = append_event_locked job_id "rejected" checked now (record s {
          jobs = put job_id updated s.jobs;
          decisions =
              put {K = String × String} (owner, v.idempotency_key) (v.request_hash, job_id)
                s.decisions;
        }) in
        (elim event [ err e ↦ err e | ok _ ↦ ok updated ], after)
  ]
]

-- The tests of the approving half, in their order: the approval, the move, the key, the events.
unfoldable pub approval_of :
    Job → String → String → Verdict → ℕ → JobStore → Answer (Approval × Fields × Fields)
unfolding granted
approval_of job job_id owner v now s = do
  approval ← granted job job_id owner v now
  moved_to job.state applying (approved_evidence v.proposal_digest)
  guard (is_fresh_key approval s) invalid_approval
  approved ← validated_event_data "approved" (approved_fields approval)
  applied ← validated_event_data "applying" export_action
  ok (approval, approved, applied)

unfoldable pub approve_job : Job → String → String → Verdict → ℕ → JobStore → Turn Job
approve_job job job_id owner v now s = elim (approval_of job job_id owner v now s) [
  | err e ↦ (err e, s)
  | ok (approval, approved, applied) ↦
      let updated = record (moved_job job applying now) { approval_consumed = false } in
      let (first, s1) = append_event_locked job_id "approved" approved now (record s {
        jobs = put job_id updated s.jobs;
        approvals = put approval.token_hash approval s.approvals;
        approval_index =
            put {K = String × (ℕ × String)} (key_of approval) approval.token_hash s.approval_index;
        decisions =
            put {K = String × String} (owner, v.idempotency_key) (v.request_hash, job_id)
              s.decisions;
      }) in
      elim first [
        | err e ↦ (err e, s1)
        | ok _ ↦
            let (second, s2) = append_event_locked job_id "applying" applied now s1 in
            (elim second [ err e ↦ err e | ok _ ↦ ok updated ], s2)
      ]
]

-- The job waits for a verdict on this proposal at this revision.
abbrev pub awaits : Job → ℕ → String → Bool
awaits job expected_revision digest =
    is_awaiting job.state
    && nat_eq job.revision expected_revision
    && job.proposal_digest == some digest

unfoldable pub decide_job_idempotent : String → String → ℕ → Verdict → ℕ → JobStore → Turn Job
decide_job_idempotent job_id owner expected_revision v now s =
    elim (decided_before (owner, v.idempotency_key) v.request_hash job_id s) [
      | some answer ↦ (answer, s)
      | none ↦ elim (owned_job job_id owner s) [
        | err e ↦ (err e, s)
        | ok job ↦
            if not (awaits job expected_revision v.proposal_digest)
            then (err stale_revision, s)
            else if v.decision == "reject"
            then reject_job job job_id owner v now s
            else approve_job job job_id owner v now s
      ]
    ]
