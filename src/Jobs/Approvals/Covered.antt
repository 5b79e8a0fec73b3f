-- ===== src/Jobs/Approvals/Covered.antt =====
-- What the tests of an approval, of a job and of its evidence say.
use lil_tweak.Prelude.{
  ℕ, ◌≡◌, true, false, some, string_Eq, pair_Eq, option_Eq, ok, arith, ◌<◌, eq_iff, option_beq_iff,
  >>=-eq-ok, false,
}
use lil_tweak.Contracts.{JobState, applying}
use lil_tweak.Jobs.Model.{Job, Approval}
use lil_tweak.Json.{Fields, obj, get_field, is_text}
use lil_tweak.Json.Equality.{fields_equal}
use lil_tweak.Jobs.Approvals.{required, fields_of}
use lil_tweak.Jobs.Approvals.Exports.{
  Use, has_evidence, is_size, covers, stands_at, Export, is_applying_job,
}
use lil_tweak.Jobs.Approvals.Granted.{required-eq, fields_of-eq}

-- The job's manifest names the patch, with the digest and the size that the export asks for.
pub record IsDescribed (job : Job) (x : Export) : Type 0 where
  pub manifest : Fields
  pub descriptor : Fields
  pub kept : job.evidence_manifest ≡ some manifest
  pub named : get_field x.evidence_name manifest ≡ some (obj descriptor)
  pub is_patch : x.evidence_name ≡ "changes.patch"
  pub of_digest : is_text x.evidence_sha256 (get_field "sha256" descriptor) ≡ true
  pub of_size : is_size x.evidence_size_bytes (get_field "bytes" descriptor) ≡ true

pub has_evidence-IsDescribed :
    (job : Job) (x : Export) → has_evidence job x ≡ ok tt → IsDescribed job x
unfolding has_evidence
has_evidence-IsDescribed job x h =
    let (manifest, p, h1) = >>=-eq-ok (required job.evidence_manifest) _ h in
    let (descriptor, q, h2) =
      >>=-eq-ok (required (fields_of (get_field x.evidence_name manifest))) _ h1 in
    record {
      manifest = manifest;
      descriptor = descriptor;
      kept = required-eq job.evidence_manifest manifest p;
      named =
          fields_of-eq (get_field x.evidence_name manifest) descriptor (required-eq _ descriptor q);
      is_patch = (eq_iff x.evidence_name "changes.patch").0 (ground (arith, h2));
      of_digest = ground (arith, h2);
      of_size = ground (arith, h2);
    }

pub covers-eq :
    (a : Approval) (u : Use) (now : ℕ)
    → covers a u now ≡ true
    → (a.consumed ≡ false)
      × (now < a.expires_at)
      × (a.owner_id ≡ u.owner_id)
      × (a.job_id ≡ u.job_id)
      × (a.proposal_digest ≡ u.proposal_digest)
      × (a.source_digest ≡ u.source_digest)
      × (a.policy_version ≡ u.policy_version)
      × (fields_equal a.resource_profile u.resource_profile ≡ true)
unfolding covers
covers-eq a u now h = ground (
  arith,
  h,
  (eq_iff a.owner_id u.owner_id).0,
  (eq_iff a.job_id u.job_id).0,
  (eq_iff a.proposal_digest u.proposal_digest).0,
  (eq_iff a.source_digest u.source_digest).0,
  (eq_iff a.policy_version u.policy_version).0,
)

pub stands_at-eq :
    (job : Job) (u : Use)
    → stands_at job u ≡ true
    → (job.owner_id ≡ u.owner_id)
      × (job.revision ≡ u.revision)
      × (job.proposal_digest ≡ some u.proposal_digest)
      × (job.source_digest ≡ some u.source_digest)
unfolding stands_at
stands_at-eq job u h = ground (
  arith,
  h,
  (eq_iff job.owner_id u.owner_id).0,
  (option_beq_iff job.proposal_digest (some u.proposal_digest)).0,
  (option_beq_iff job.source_digest (some u.source_digest)).0,
)

pub applying-eq : (st : JobState) → is_applying_job st ≡ true → st ≡ applying
applying-eq st h = ground (arith, h)
