-- ===== src/Jobs/Approvals/Granted.antt =====
-- What is known of an approval that a verdict grants, and of the job.
use lil_tweak.Prelude.{
  ℕ, ◌<◌, ◌≡◌, true, false, String, some, none, ◌==◌, string_Eq, pair_Eq, option_Eq, ok, arith,
  eq_iff, option_beq_iff, Option, after_guard, >>=-eq-ok, ltb, ◌&&◌,
}
use lil_tweak.Prelude.Table.{get}
use lil_tweak.Json.{Json, Fields, text, obj, get_field, is_text}
use lil_tweak.Json.Equality.{fields_equal}
use lil_tweak.Prelude.Text.{is_hex_text}
use lil_tweak.Contracts.{awaiting_approval}
use lil_tweak.Jobs.Model.{invalid_approval, Job, Approval, JobStore, approval_key_Eq}
use lil_tweak.Jobs.Events.{owned_job}
use lil_tweak.Jobs.Approvals.{Verdict, required, text_of, fields_of, proposal_fits, granted, awaits}

pub required-eq : {A : Type 0} (o : Option A) (x : A) → required o ≡ ok x → o ≡ some x
required-eq none x h = cc h
required-eq (some y) x h = ground (arith, h)

text_of-eq : (o : Option Json) (t : String) → text_of o ≡ some t → o ≡ some (text t)
text_of-eq o t h = ground (arith, h)

pub fields_of-eq : (o : Option Json) (d : Fields) → fields_of o ≡ some d → o ≡ some (obj d)
fields_of-eq o d h = ground (arith, h)

-- The proposal that was shown is the one on record, and the approval has its policy and resources.
pub record IsShown (v : Verdict) (job : Job) (a : Approval) : Type 0 where
  pub shown : Fields
  pub recorded : Fields
  pub in_verdict : v.approval_proposal ≡ some shown
  pub on_record : job.approval_proposal ≡ some recorded
  pub same : fields_equal shown recorded ≡ true
  pub to_export : is_text "export_patch" (get_field "action" shown) ≡ true
  pub to_owner : is_text "owner_download" (get_field "target" shown) ≡ true
  pub for_digest : is_text v.proposal_digest (get_field "proposalDigest" shown) ≡ true
  pub for_source : is_text a.source_digest (get_field "sourceDigest" shown) ≡ true
  pub of_policy : get_field "policyVersion" shown ≡ some (text a.policy_version)
  pub of_profile : get_field "resourceProfile" shown ≡ some (obj a.resource_profile)

proposal_fits-eq :
    (shown recorded : Fields) (digest source : String)
    → proposal_fits shown recorded digest source ≡ true
    → (fields_equal shown recorded ≡ true)
      × (is_text "export_patch" (get_field "action" shown) ≡ true)
      × (is_text "owner_download" (get_field "target" shown) ≡ true)
      × (is_text digest (get_field "proposalDigest" shown) ≡ true)
      × (is_text source (get_field "sourceDigest" shown) ≡ true)
unfolding proposal_fits
proposal_fits-eq shown recorded digest source h = ground (arith, h)

pub granted-IsShown :
    (job : Job) (id owner : String) (v : Verdict) (now : ℕ) (a : Approval)
    → granted job id owner v now ≡ ok a
    → IsShown v job a
unfolding granted
granted-IsShown job id owner v now a h =
    let (_, h1) = after_guard (v.decision == "approve") invalid_approval _ h in
    let (shown, p, h2) = >>=-eq-ok (required v.approval_proposal) _ h1 in
    let (recorded, q, h3) = >>=-eq-ok (required job.approval_proposal) _ h2 in
    let (source, r, h4) = >>=-eq-ok (required job.source_digest) _ h3 in
    let (policy, k, h5) = >>=-eq-ok (required (text_of (get_field "policyVersion" shown))) _ h4 in
    let (profile, l, h6) =
      >>=-eq-ok (required (fields_of (get_field "resourceProfile" shown))) _ h5 in
    let (token, m, h7) = >>=-eq-ok (required v.approval_token_hash) _ h6 in
    let (expires, n, h8) = >>=-eq-ok (required v.expires_at) _ h7 in
    let (fits, h9) =
      after_guard (proposal_fits shown recorded v.proposal_digest source) invalid_approval _ h8 in
    let (_, made) = after_guard (is_hex_text 64 token && ltb now expires) invalid_approval _ h9 in
    let (same, action, target, for_digest, for_source) =
      proposal_fits-eq shown recorded v.proposal_digest source fits in
    let by_policy : policy ≡ a.policy_version = ground (arith, made) in
    let by_profile : profile ≡ a.resource_profile = ground (arith, made) in
    let by_source : source ≡ a.source_digest = ground (arith, made) in
    record {
      shown = shown;
      recorded = recorded;
      in_verdict = required-eq v.approval_proposal shown p;
      on_record = required-eq job.approval_proposal recorded q;
      same = same;
      to_export = action;
      to_owner = target;
      for_digest = for_digest;
      for_source = rw (← by_source) for_source;
      of_policy =
          rw (← by_policy)
            (text_of-eq (get_field "policyVersion" shown) policy (required-eq _ policy k));
      of_profile =
          rw (← by_profile)
            (fields_of-eq (get_field "resourceProfile" shown) profile (required-eq _ profile l));
    }

pub granted-eq :
    (job : Job) (id owner : String) (v : Verdict) (now : ℕ) (a : Approval)
    → granted job id owner v now ≡ ok a
    → (a.proposal_digest ≡ v.proposal_digest)
      × (a.job_id ≡ id)
      × (a.owner_id ≡ owner)
      × (a.revision ≡ job.revision)
      × (job.source_digest ≡ some a.source_digest)
      × (a.consumed ≡ false)
      × (now < a.expires_at)
      × (v.approval_token_hash ≡ some a.token_hash)
unfolding granted
granted-eq job id owner v now a h = ground (arith, h)

pub owned_job-eq :
    (id owner : String) (s : JobStore) (job : Job)
    → owned_job id owner s ≡ ok job
    → (get id s.jobs ≡ some job) × (job.owner_id ≡ owner)
unfolding owned_job
owned_job-eq id owner s job h = ground (arith, h, (eq_iff job.owner_id owner).0)

pub awaits-eq :
    (job : Job) (revision : ℕ) (digest : String)
    → awaits job revision digest ≡ true
    → (job.state ≡ awaiting_approval)
      × (job.revision ≡ revision)
      × (job.proposal_digest ≡ some digest)
awaits-eq job revision digest h =
    ground (arith, h, (option_beq_iff job.proposal_digest (some digest)).0)
