-- ===== src/Examples/Stores.antt =====
-- A job in the store: created, updated, approved and exported, with its log and its nonces.
use lil_tweak.Prelude.{
  eq_iff, ℕ, ◌≡◌, refl, true, false, some, none, List, [], ◌∷◌, ◌++◌, String, ok, err, string_Eq,
  pair_Eq, arith,
}
use lil_tweak.Prelude.Text.{codes, is_hex_text, strip}
use lil_tweak.Prelude.Table.{All, get, put}
use lil_tweak.Json.{Fields, field, end, text, nat, obj, get_field}
use lil_tweak.Json.Equality.{fields_equal}
use lil_tweak.Contracts.{JobMode, draft, queued, awaiting_approval, applying, completed}
use lil_tweak.State.{transition}
use lil_tweak.Jobs.Model.{
  Job, JobEvent, Approval, JobStore, stale_revision, invalid_approval, moved_to,
}
use lil_tweak.Jobs.Events.{
  append_event, append_event_locked, owned_job, validated_event_data, is_valid_event,
}
use lil_tweak.Jobs.Nonces.{consume_nonce, recent, consume_all, nonce_is_single_use}
use lil_tweak.Jobs.Updates.{
  JobRequest, create_job, JobChange, update_job, transition_job, lease_fits,
}
use lil_tweak.Jobs.Cancels.{decided_before}
use lil_tweak.Jobs.Updates.Refusals.{IsUpdated, update_is_guarded, second_update_is_stale}
use lil_tweak.Jobs.Approvals.{Verdict, granted, approval_of, approve_job, decide_job_idempotent}
use lil_tweak.Jobs.Approvals.Exports.{
  Use, Export, covers, stands_at, consume_approval, is_token, has_evidence, exportable,
  consume_export_idempotent,
}
use lil_tweak.Jobs.Approvals.Uses.{IsExported, export_needs_approval}
use lil_tweak.Jobs.Approvals.Verdicts.{verdict_is_idempotent, IsApproved, approval_is_bound}
use lil_tweak.Jobs.Logs.{Digesters, JobCall, job_after, job_run, IsNewRun, IsNumbered}
use lil_tweak.Jobs.Logs.Spent.{IsElsewhere, approval_is_used_once, export_is_made_once}
use lil_tweak.Jobs.Logs.Runs.{empty_jobs, events_count_up, log_only_grows}

abbrev digest : String
digest = "0123456789abcdef0123456789abcdef0123456789abcdef0123456789abcdef"

abbrev sha256 : String → String
sha256 _ = digest

abbrev digesters : Digesters
digesters = record { fingerprint = λ _. "f"; sha256 = sha256 }

abbrev other_hash : String
other_hash = "00000000000000000000000000000000000000000000000000000000000000ff"

nonce_is_single_use_example :
    (consume_nonce "key" "n" 500 500
      (consume_all (("key", "m", 200, 200) ∷ []) (consume_nonce "key" "n" 100 101 empty_jobs).1)).0
    ≡ false
unfolding consume_nonce recent get
nonce_is_single_use_example =
    nonce_is_single_use "key" "n" 100 101 500 500 (("key", "m", 200, 200) ∷ []) empty_jobs refl
      (omega arith, tt) (omega arith)

-- The proposal that is shown for approval.
abbrev proposal : Fields
proposal = field "action" (text "export_patch") (
    field "target" (text "owner_download") (
      field "proposalDigest" (text digest) (
        field "sourceDigest" (text digest) (
          field "policyVersion" (text "v1")
            (field "resourceProfile" (obj (field "cpu" (nat 2) end)) end)))))

abbrev manifest : Fields
manifest =
    field "changes.patch" (obj (field "sha256" (text digest) (field "bytes" (nat 12) end))) end

abbrev pub waiting : Job
waiting = record {
  id = "j";
  owner_id = "o";
  mode = JobMode.build;
  prompt = "fix it";
  state = awaiting_approval;
  revision = 6;
  proposal_digest = some digest;
  evidence_manifest = some manifest;
  evidence_created_at = [];
  summary = "";
  sources = [];
  source_digest = some digest;
  approval_proposal = some proposal;
  approval_consumed = false;
  project_context = none;
  git_source = none;
  created_at = 1;
  updated_at = 9;
  cancel_requested = false;
}

abbrev pub at_waiting : JobStore
at_waiting = record empty_jobs { jobs = ("j", waiting) ∷ []; events = ("j", []) ∷ [] }

abbrev pub fresh_draft : Job
fresh_draft = record waiting {
  state = draft;
  revision = 0;
  proposal_digest = none;
  approval_proposal = none;
}

abbrev pub at_draft : JobStore
at_draft = record empty_jobs { jobs = ("j", fresh_draft) ∷ []; events = ("j", []) ∷ [] }

abbrev to_queue : JobChange
to_queue = record {
  state = queued;
  proposal_digest = none;
  evidence_manifest = none;
  approved_digest = none;
  approval_consumed = false;
  summary = none;
  source_digest = none;
  approval_proposal = none;
  lease = none;
}

abbrev queued_job : Job
queued_job = record fresh_draft { state = queued; revision = 1; updated_at = 3 }

update_is_guarded_example :
    IsUpdated "j" "o" 0 to_queue at_draft (update_job "j" "o" 0 to_queue 3 at_draft).1 queued_job
unfolding update_job owned_job get put lease_fits moved_to transition
update_is_guarded_example =
    update_is_guarded "j" "o" 0 to_queue 3 at_draft (update_job "j" "o" 0 to_queue 3 at_draft).1
      queued_job refl

second_update_is_stale_example :
    update_job "j" "o" 0 to_queue 4 (update_job "j" "o" 0 to_queue 3 at_draft).1
    ≡ (err stale_revision, (update_job "j" "o" 0 to_queue 3 at_draft).1)
unfolding update_job owned_job get put lease_fits moved_to transition
second_update_is_stale_example =
    second_update_is_stale "j" "o" 0 to_queue to_queue 3 4 at_draft
      (update_job "j" "o" 0 to_queue 3 at_draft).1 queued_job refl

abbrev verdict : Verdict
verdict = record {
  idempotency_key = "k";
  request_hash = "h";
  decision = "approve";
  proposal_digest = digest;
  approval_proposal = some proposal;
  approval_token_hash = some digest;
  expires_at = some 100;
}

abbrev applying_job : Job
applying_job = record waiting { state = applying; revision = 7; updated_at = 10 }

abbrev at_applying : JobStore
at_applying = (decide_job_idempotent "j" "o" 6 verdict 10 at_waiting).1

verdict_is_idempotent_example :
    decide_job_idempotent "j" "o" 6 verdict 20 at_applying ≡ (ok applying_job, at_applying)
unfolding decide_job_idempotent decided_before owned_job get put approve_job approval_of granted
    fields_equal get_field is_hex_text moved_to transition validated_event_data is_valid_event
    append_event_locked
verdict_is_idempotent_example =
    verdict_is_idempotent "j" "o" 6 6 verdict 10 20 at_waiting at_applying applying_job refl

approval_is_bound_example : IsApproved "j" "o" 6 verdict 10 at_waiting at_applying applying_job
unfolding decide_job_idempotent decided_before owned_job get put approve_job approval_of granted
    fields_equal get_field is_hex_text moved_to transition validated_event_data is_valid_event
    append_event_locked
approval_is_bound_example =
    approval_is_bound "j" "o" 6 verdict 10 at_waiting at_applying applying_job refl refl refl

-- The approval that the verdict grants, as it is stored.
abbrev approval : Approval
approval = record {
  token_hash = digest;
  job_id = "j";
  owner_id = "o";
  revision = 6;
  proposal_digest = digest;
  source_digest = digest;
  action = "export_patch";
  target = "owner_download";
  policy_version = "v1";
  resource_profile = field "cpu" (nat 2) end;
  expires_at = 100;
  consumed = false;
  consumed_at = none;
}

abbrev use_of : ℕ → Use
use_of revision = record {
  owner_id = "o";
  job_id = "j";
  revision = revision;
  proposal_digest = digest;
  source_digest = digest;
  policy_version = "v1";
  resource_profile = field "cpu" (nat 2) end;
}

abbrev with_approval : JobStore
with_approval = record at_waiting { approvals = (digest, approval) ∷ [] }

-- Calls in between: a nonce, the same approval again, and another one under another hash.
abbrev between : List JobCall
between =
    JobCall.nonce "key" "n" 13 13
    ∷ JobCall.use_approval "t" (use_of 6) 14
    ∷ JobCall.approve (record approval { token_hash = other_hash }) 15
    ∷ []

between-IsElsewhere : All (IsElsewhere digest) between
between-IsElsewhere = (tt, (tt, ((λ e. cc ((eq_iff other_hash digest).1 e)), tt)))

abbrev at_used : JobStore
at_used = (consume_approval sha256 "t" (use_of 6) 11 with_approval).1

approval_is_used_once_example :
    consume_approval sha256 "t" (use_of 6) 20 (job_run digesters between at_used)
    ≡ (err invalid_approval, job_run digesters between at_used)
unfolding consume_approval covers stands_at fields_equal get_field get put
approval_is_used_once_example =
    approval_is_used_once digesters "t" (use_of 6) (use_of 6) 11 20 with_approval at_used
      (record approval { consumed = true; consumed_at = some 11 }) between refl between-IsElsewhere

abbrev request : Export
request = record {
  idempotency_key = "e";
  request_hash = "x";
  approval_token = "AAAAAAAAAAAAAAAAAAAAAAAAAAAAAAAAAAAAAAAAAAA";
  evidence_name = "changes.patch";
  evidence_sha256 = digest;
  evidence_size_bytes = 12;
}

abbrev before_export : JobStore
before_export = record empty_jobs {
  jobs = ("j", applying_job) ∷ [];
  events = ("j", []) ∷ [];
  approvals = (digest, approval) ∷ [];
}

abbrev after_export : JobStore
after_export = (consume_export_idempotent sha256 (use_of 7) request 20 before_export).1

abbrev done_job : Job
done_job = record applying_job {
  state = completed;
  revision = 8;
  approval_consumed = true;
  updated_at = 20;
}

export_needs_approval_example :
    IsExported sha256 (use_of 7) request 20 before_export after_export done_job
unfolding consume_export_idempotent is_token codes exportable has_evidence covers stands_at
    fields_equal get_field get put moved_to transition validated_event_data is_valid_event
    append_event_locked
export_needs_approval_example =
    export_needs_approval sha256 (use_of 7) request 20 before_export after_export done_job refl refl

abbrev second_request : Export
second_request = record request { idempotency_key = "e2" }

export_is_made_once_example :
    consume_export_idempotent sha256
      (use_of 7)
      second_request
      30
      (job_run digesters (JobCall.nonce "key" "n" 25 25 ∷ []) after_export)
    ≡ (err invalid_approval, job_run digesters (JobCall.nonce "key" "n" 25 25 ∷ []) after_export)
unfolding consume_export_idempotent is_token codes exportable has_evidence covers stands_at
    fields_equal get_field get put moved_to transition validated_event_data is_valid_event
    append_event_locked job_run job_after consume_nonce recent
export_is_made_once_example =
    export_is_made_once digesters (use_of 7) (use_of 7) request second_request 20 30 before_export
      after_export done_job (JobCall.nonce "key" "n" 25 25 ∷ []) refl refl (tt, tt) refl refl

abbrev job_request : JobRequest
job_request = record {
  owner_id = "o";
  idempotency_key = "k";
  mode = JobMode.build;
  prompt = "fix it";
  sources = [];
  project_context = none;
  git_source = none;
}

abbrev calls : List JobCall
calls =
    JobCall.create job_request "j" 1
    ∷ JobCall.move "j" "o" 0 to_queue "queued" end 2
    ∷ JobCall.log "j" "o" "engineering_failed" (field "code" (text "engineering_failed") end) 3
    ∷ []

abbrev queued_event : JobEvent
queued_event = record {
  job_id = "j";
  sequence = 1;
  kind = "queued";
  data_fields = end;
  created_at = 2;
}

abbrev failed_event : JobEvent
failed_event = record {
  job_id = "j";
  sequence = 2;
  kind = "engineering_failed";
  data_fields = field "code" (text "engineering_failed") end;
  created_at = 3;
}

calls-IsNewRun : IsNewRun digesters calls empty_jobs
unfolding get
calls-IsNewRun = (refl, (tt, (tt, tt)))

events_count_up_example : IsNumbered 0 (queued_event ∷ failed_event ∷ [])
unfolding job_run job_after create_job strip transition_job update_job append_event owned_job
    lease_fits moved_to transition validated_event_data is_valid_event append_event_locked get put
    get_field
events_count_up_example =
    events_count_up digesters calls "j" (queued_event ∷ failed_event ∷ []) calls-IsNewRun refl

log_only_grows_example :
    (fs : List JobEvent) × (get "j"
        (job_run digesters (JobCall.move "j" "o" 0 to_queue "queued" end 2 ∷ []) at_draft).events
      ≡ some ([] ++ fs))
unfolding get
log_only_grows_example =
    log_only_grows digesters (JobCall.move "j" "o" 0 to_queue "queued" end 2 ∷ []) at_draft "j" []
      (tt, tt) refl
