-- ===== src/Jobs/Approvals/Exports.antt =====
-- `create_approval`, `consume_approval` and `consume_export_idempotent` of `MemoryJobStore`.
use Prim.Native.String.{◌++◌ as str_append}
use lil_tweak.Prelude.{
  ℕ, ◌+◌, Bool, true, false, not, ◌&&◌, ◌||◌, String, Option, some, none, List, [], ◌∷◌, any, ltb,
  nat_eq, if◌then◌else◌, ◌==◌, string_Eq, nat_Eq, pair_Eq, option_Eq, ok, err, ◌>>=◌, ◌>>◌, guard,
}
use lil_tweak.Prelude.Text.{codes, is_upper, is_lower, is_digit, is_hex_text}
use lil_tweak.Prelude.Table.{get, put}
use lil_tweak.Json.{Json, Fields, bool, nat, get_field, is_text}
use lil_tweak.Json.Equality.{fields_equal}
use lil_tweak.Contracts.{JobState, applying, completed}
use lil_tweak.State.{no_evidence}
use lil_tweak.Jobs.Model.{
  idempotency_conflict, invalid_approval, Answer, Job, Approval, JobStore, approval_key_Eq, Turn,
  moved_to,
}
use lil_tweak.Jobs.Events.{validated_event_data, append_event_locked}
use lil_tweak.Jobs.Approvals.{required, fields_of, key_of, is_fresh_key, export_action, moved_job}

-- `create_approval`: the approval that the arguments describe, for a job at its revision.
unfoldable pub create_approval : Approval → ℕ → JobStore → Turn Approval
create_approval a now s = elim (get a.job_id s.jobs) [
  | none ↦ (err invalid_approval, s)
  | some job ↦
      if not (
        job.owner_id == a.owner_id
        && nat_eq job.revision a.revision
        && job.proposal_digest == some a.proposal_digest
        && job.source_digest == some a.source_digest
        && ltb now a.expires_at
        && is_hex_text 64 a.token_hash)
      then (err invalid_approval, s)
      else if not (is_fresh_key a s)
      then (err invalid_approval, s)
      else let approval = record a { consumed = false; consumed_at = none } in
        (
          ok approval,
          record s {
            approvals = put a.token_hash approval s.approvals;
            approval_index =
                put {K = String × (ℕ × String)} (key_of a) a.token_hash s.approval_index;
          },
        )
]

-- What a request to use an approval names.
pub record Use : Type 0 where
  pub owner_id : String
  pub job_id : String
  pub revision : ℕ
  pub proposal_digest : String
  pub source_digest : String
  pub policy_version : String
  pub resource_profile : Fields

-- The tests that both uses make of the approval.
unfoldable pub covers : Approval → Use → ℕ → Bool
covers a u now =
    not a.consumed
    && a.owner_id == u.owner_id
    && a.job_id == u.job_id
    && a.proposal_digest == u.proposal_digest
    && a.source_digest == u.source_digest
    && a.policy_version == u.policy_version
    && fields_equal a.resource_profile u.resource_profile
    && ltb now a.expires_at

-- The tests that both uses make of the job.
unfoldable pub stands_at : Job → Use → Bool
stands_at job u =
    job.owner_id == u.owner_id
    && nat_eq job.revision u.revision
    && job.proposal_digest == some u.proposal_digest
    && job.source_digest == some u.source_digest

abbrev pub used : Approval → ℕ → Approval
used a now = record a { consumed = true; consumed_at = some now }

-- `sha256` stands for the hexadecimal SHA-256 of the token's bytes.
unfoldable pub consume_approval : (String → String) → String → Use → ℕ → JobStore → Turn Approval
consume_approval sha256 token u now s = elim (get (sha256 token) s.approvals) [
  | none ↦ (err invalid_approval, s)
  | some a ↦ elim (get u.job_id s.jobs) [
    | none ↦ (err invalid_approval, s)
    | some job ↦
        if covers a u now && nat_eq a.revision u.revision && stands_at job u
        then (ok (used a now), record s { approvals = put (sha256 token) (used a now) s.approvals })
        else (err invalid_approval, s)
  ]
]

-- `[A-Za-z0-9_-]`, and the last character of `_CANONICAL_APPROVAL_TOKEN`.
is_token_char : ℕ → Bool
is_token_char c = is_upper c || is_lower c || is_digit c || nat_eq c b'_' || nat_eq c b'-'

is_last_char : ℕ → Bool
is_last_char c = any (λ d. nat_eq c d) (codes "AEIMQUYcgkosw048")

unfoldable pub is_token_codes : ℕ → List ℕ → Bool
unfolding is_token_char is_last_char
is_token_codes n [] = false
is_token_codes n (c ∷ []) = nat_eq n 42 && is_last_char c
is_token_codes n (c ∷ d ∷ rest) = is_token_char c && is_token_codes (n + 1) (d ∷ rest)

unfoldable pub is_token : String → Bool
unfolding is_token_codes codes
is_token value = is_token_codes 0 (codes value)

-- A request to export, beside the use of the approval.
pub record Export : Type 0 where
  pub idempotency_key : String
  pub request_hash : String
  pub approval_token : String
  pub evidence_name : String
  pub evidence_sha256 : String
  pub evidence_size_bytes : ℕ

abbrev pub is_applying_job : JobState → Bool
is_applying_job applying = true
is_applying_job _ = false

abbrev pub is_completed_job : JobState → Bool
is_completed_job completed = true
is_completed_job _ = false

-- `value == n`, for a number of bytes; sizes are written as integers, and `True` is 1.
abbrev pub is_size : ℕ → Option Json → Bool
is_size n (some (nat m)) = nat_eq m n
is_size n (some (bool b)) = nat_eq n (if b then 1 else 0)
is_size n _ = false

-- The manifest names the evidence with this digest and size.
unfoldable pub has_evidence : Job → Export → Answer (Unit {0})
has_evidence job x = do
  manifest ← required job.evidence_manifest
  descriptor ← required (fields_of (get_field x.evidence_name manifest))
  guard
      (x.evidence_name == "changes.patch"
        && is_text x.evidence_sha256 (get_field "sha256" descriptor)
        && is_size x.evidence_size_bytes (get_field "bytes" descriptor))
      invalid_approval

-- All tests of an export that was not made before.
unfoldable pub exportable :
    Option Approval → Option Job → Use → Export → ℕ → Answer (Approval × Job)
unfolding has_evidence
exportable approval current u x now = do
  a ← required approval
  job ← required current
  guard (covers a u now && a.action == "export_patch" && a.target == "owner_download")
      invalid_approval
  guard (stands_at job u && is_applying_job job.state && not job.approval_consumed) invalid_approval
  has_evidence job x
  ok (a, job)

-- The answer to an export that was made before.
unfoldable pub exported_before : Option Approval → Option Job → Use → ℕ → Answer Job
exported_before approval current u now = do
  a ← required approval
  job ← required current
  guard
      (ltb now a.expires_at
        && job.owner_id == u.owner_id
        && is_completed_job job.state
        && job.approval_consumed)
      invalid_approval
  ok job

abbrev pub export_identity : Use → Export → String × String
export_identity u x = (u.owner_id, str_append "export:" x.idempotency_key)

-- The state with the approval used, the job completed and the decision recorded.
abbrev pub exported : String → Approval → Job → Use → Export → ℕ → JobStore → JobStore
exported hash a job u x now s = record s {
  approvals = put hash (used a now) s.approvals;
  jobs = put u.job_id (record (moved_job job completed now) { approval_consumed = true }) s.jobs;
  decisions =
      put {K = String × String} (export_identity u x) (x.request_hash, u.job_id) s.decisions;
}

unfoldable pub consume_export_idempotent :
    (String → String) → Use → Export → ℕ → JobStore → Turn Job
consume_export_idempotent sha256 u x now s =
    let hash = sha256 x.approval_token in
    let approval = get hash s.approvals in
    let current = get u.job_id s.jobs in
    if not (is_token x.approval_token)
    then (err invalid_approval, s)
    else elim (get {K = String × String} (export_identity u x) s.decisions) [
      | some (decided_hash, decided_id) ↦
          if not (decided_hash == x.request_hash && decided_id == u.job_id)
          then (err idempotency_conflict, s)
          else (exported_before approval current u now, s)
      | none ↦ elim (exportable approval current u x now) [
        | err e ↦ (err e, s)
        | ok (a, job) ↦ elim (moved_to job.state completed no_evidence) [
          | err e ↦ (err e, s)
          | ok target ↦
              let after = exported hash a job u x now s in
              elim (validated_event_data "completed" export_action) [
                | err e ↦ (err e, after)
                | ok checked ↦
                    let (event, logged) =
                      append_event_locked u.job_id "completed" checked now after in
                    (
                      elim event [
                        | err e ↦ err e
                        | ok _ ↦
                            ok (record (moved_job job completed now) { approval_consumed = true })
                      ],
                      logged,
                    )
              ]
        ]
      ]
    ]
