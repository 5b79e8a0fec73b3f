-- ===== src/Jobs/Updates.antt =====
-- `create_job`, `get_job`, `update_job` and `transition_job` of `MemoryJobStore`.
pub mod Refusals
use lil_tweak.Prelude.{
  ℕ, ◌+◌, Bool, true, false, not, ◌&&◌, ◌||◌, String, Option, some, none, List, [], ◌∷◌, leb, ltb,
  nat_eq, if◌then◌else◌, ◌==◌, string_Eq, pair_Eq, option_Eq, Result, ok, err,
}
use lil_tweak.Prelude.Text.{is_blank, strip}
use lil_tweak.Prelude.Table.{Table, get, put}
use lil_tweak.Json.{Json, Fields, nat, end, field, field_count}
use lil_tweak.Contracts.{JobMode, JobState, draft, awaiting_approval, applying, cancelled}
use lil_tweak.State.{Evidence, no_evidence}
use lil_tweak.Jobs.Model.{
  StoreError, value_error, idempotency_conflict, stale_revision, stale_lease, job_not_found,
  missing_key, Answer, SourceSpec, GitSourceSpec, JobLease, Job, JobStore, Turn, moved_to, or_else,
}
use lil_tweak.Jobs.Events.{validated_event_data, append_event_locked, owned_job}

-- The arguments of `create_job`, the mode being one of `JobMode`.
pub record JobRequest : Type 0 where
  pub owner_id : String
  pub idempotency_key : String
  pub mode : JobMode
  pub prompt : String
  pub sources : List SourceSpec
  pub project_context : Option Fields
  pub git_source : Option GitSourceSpec

-- `self._jobs[job_id]`
abbrev pub stored_job : String → JobStore → Answer Job
stored_job job_id s = elim (get job_id s.jobs) [ none ↦ err missing_key | some job ↦ ok job ]

abbrev pub new_job : JobRequest → String → ℕ → Job
new_job r id now = record {
  id = id;
  owner_id = r.owner_id;
  mode = r.mode;
  prompt = r.prompt;
  state = draft;
  revision = 0;
  proposal_digest = none;
  evidence_manifest = none;
  evidence_created_at = [];
  summary = "";
  sources = r.sources;
  source_digest = none;
  approval_proposal = none;
  approval_consumed = false;
  project_context = r.project_context;
  git_source = r.git_source;
  created_at = now;
  updated_at = now;
  cancel_requested = false;
}

-- `fingerprint` stands for `_request_fingerprint`, SHA-256 over canonical JSON; `id` is the text of a
-- new UUID.
unfoldable pub create_job : (JobRequest → String) → JobRequest → String → ℕ → JobStore → Turn Job
create_job fingerprint r id now s =
    let identity : String × String = (r.owner_id, r.idempotency_key) in
    if is_blank r.owner_id || is_blank r.idempotency_key || is_blank (strip r.prompt)
    then (err (value_error "owner, idempotency key, and prompt are required"), s)
    else elim (get identity s.idempotency) [
      | some (job_id, previous) ↦
          if not (previous == fingerprint r)
          then (err idempotency_conflict, s)
          else (stored_job job_id s, s)
      | none ↦ (
        ok (new_job r id now),
        record s {
          jobs = put id (new_job r id now) s.jobs;
          idempotency = put identity (id, fingerprint r) s.idempotency;
          events = put id [] s.events;
        },
      )
    ]

unfoldable pub get_job : String → String → JobStore → Option Job
get_job job_id owner s = elim (get job_id s.jobs) [
  | none ↦ none
  | some job ↦ if job.owner_id == owner then some job else none
]

-- The keyword arguments of `update_job` after the owner and the revision.
pub record JobChange : Type 0 where
  pub state : JobState
  pub proposal_digest : Option String
  pub evidence_manifest : Option Fields
  pub approved_digest : Option String
  pub approval_consumed : Bool
  pub summary : Option String
  pub source_digest : Option String
  pub approval_proposal : Option Fields
  pub lease : Option JobLease

-- The lease that is given is held and has not run out; without one, no lease may hold the job.
unfoldable pub lease_fits : String → String → Option JobLease → Option JobLease → ℕ → Bool
lease_fits job_id owner none none now = true
lease_fits job_id owner none (some current) now = leb current.expires_at now
lease_fits job_id owner (some lease) none now = false
lease_fits job_id owner (some lease) (some current) now =
    lease.job_id == job_id
    && lease.owner_id == owner
    && lease.worker_id == current.worker_id
    && nat_eq lease.generation current.generation
    && ltb now current.expires_at

-- `for name in evidence_manifest: evidence_created_at.setdefault(name, now)`
unfoldable pub stamp : Fields → ℕ → Table String ℕ → Table String ℕ
stamp end now times = times
stamp (field name v rest) now times =
    stamp rest now (elim (get name times) [ none ↦ put name now times | some _ ↦ times ])

abbrev pub stamp_manifest : Option Fields → ℕ → Table String ℕ → Table String ℕ
stamp_manifest none now times = times
stamp_manifest (some manifest) now times = stamp manifest now times

-- The truth value of an optional dictionary.
abbrev pub has_entries : Option Fields → Bool
has_entries none = false
has_entries (some d) = not (nat_eq (field_count d) 0)

-- `b if a is None else a`
abbrev pub given_or {ℓ} : {A : Type ℓ} → Option A → Option A → Option A
given_or none b = b
given_or (some a) b = some a

-- What `update_job` hands to `transition`: an approval is never on record there.
abbrev pub evidence_of : JobChange → Evidence
evidence_of c = record {
  proposal_digest = c.proposal_digest;
  has_manifest = has_entries c.evidence_manifest;
  approved_digest = c.approved_digest;
  approval_recorded = false;
  approval_consumed = c.approval_consumed;
}

unfoldable pub updated_job : Job → JobChange → JobState → ℕ → Job
updated_job job c target now = record job {
  state = target;
  revision = job.revision + 1;
  proposal_digest = or_else c.proposal_digest job.proposal_digest;
  evidence_manifest = given_or c.evidence_manifest job.evidence_manifest;
  evidence_created_at = stamp_manifest c.evidence_manifest now job.evidence_created_at;
  updated_at = now;
  summary = elim c.summary [ none ↦ job.summary | some text ↦ text ];
  source_digest = or_else c.source_digest job.source_digest;
  approval_proposal = given_or c.approval_proposal job.approval_proposal;
  approval_consumed = job.approval_consumed || c.approval_consumed;
}

unfoldable pub update_job : String → String → ℕ → JobChange → ℕ → JobStore → Turn Job
unfolding updated_job
update_job job_id owner expected_revision c now s = elim (owned_job job_id owner s) [
  | err e ↦ (err e, s)
  | ok job ↦
      if not (nat_eq job.revision expected_revision)
      then (err stale_revision, s)
      else if not (lease_fits job_id owner c.lease (get job_id s.claims) now)
      then (err stale_lease, s)
      else elim (moved_to job.state c.state (evidence_of c)) [
        | err e ↦ (err e, s)
        | ok target ↦ (
          ok (updated_job job c target now),
          record s { jobs = put job_id (updated_job job c target now) s.jobs },
        )
      ]
]

unfoldable pub transition_job :
    String → String → ℕ → JobChange → String → Fields → ℕ → JobStore → Turn Job
transition_job job_id owner expected_revision c event_kind event_data now s =
    elim (validated_event_data event_kind event_data) [
      | err e ↦ (err e, s)
      | ok checked ↦
          let (result, moved) = update_job job_id owner expected_revision c now s in
          elim result [
            | err e ↦ (err e, moved)
            | ok job ↦
                let (event, after) = append_event_locked job_id event_kind checked now moved in
                (elim event [ err e ↦ err e | ok _ ↦ ok job ], after)
          ]
    ]
