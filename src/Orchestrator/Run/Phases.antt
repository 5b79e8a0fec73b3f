-- ===== src/Orchestrator/Run/Phases.antt =====
-- The phases of `run_job` of `EngineeringOrchestrator`.
use lil_tweak.Prelude.{
  ℕ, ◌+◌, Bool, true, false, not, ◌||◌, String, Option, some, none, [], any, if◌then◌else◌, Result,
  ok, err,
}
use lil_tweak.Json.{Json, nat, text, Fields, end, field}
use lil_tweak.Contracts.{
  JobState, draft, queued, ingesting, testing, collecting, awaiting_approval, completed, cancelled,
  timed_out, max_evidence_bytes,
}
use lil_tweak.Jobs.Model.{Job}
use lil_tweak.Jobs.Events.{append_event}
use lil_tweak.Jobs.Updates.{JobChange}
use lil_tweak.Evidence.Snapshots.{WorkspaceSnapshot, Evidenced}
use lil_tweak.Evidence.Patch.{build_workspace_patch}
use lil_tweak.Evidence.Bundle.{EvidenceBundle, build_evidence_bundle}
use lil_tweak.Orchestrator.Session.{
  M, Fault, recovery_required, fault, give, throw, lift, call, read_job, reading, ◌>>=◌, ◌>>◌,
}
use lil_tweak.Orchestrator.Host.{Host, AgentResult, AgentRequest, GalorResult, Workspace}
use lil_tweak.Orchestrator.Moves.{move, to_state}
use lil_tweak.Orchestrator.Evidence.{
  check_action, needs_approval, is_chat, join_fields, approval_binding, run_metadata, store_bundle,
}

-- An early return, or what goes on.
pub data Stage : Type 0 where
  returned : Job → Stage
  going : Job → Stage

abbrev pub after_stage : (Job → M Job) → Stage → M Job
after_stage next (returned job) = give job
after_stage next (going job) = next job

abbrev pub unless_returned : M Stage → (Job → M Job) → M Job
unless_returned m next = m >>= after_stage next

-- An exception of evidence.py, by its code.
abbrev pub evidenced : {A : Type 0} → Evidenced A → Result Fault A
evidenced (err code) = err (fault code)
evidenced (ok a) = ok a

abbrev is_draft : JobState → Bool
is_draft draft = true
is_draft _ = false

abbrev is_queued_job : JobState → Bool
is_queued_job queued = true
is_queued_job _ = false

-- `snapshot_roots.append(snapshot_job_root)`
unfoldable pub mark_staged : M (Unit {0})
mark_staged s = (ok tt, record s { staged = true })

module _ (h : Host) where
  unfoldable pub start_up : Job → M Job
  start_up job = do
    job ← if is_draft job.state then move h job (to_state queued) else give job
    if is_queued_job job.state then move h job (to_state ingesting) else give job

  -- The digest of a source without files.
  empty_baseline : WorkspaceSnapshot
  empty_baseline = record { files = []; source_digest = h.sha256 "lil-tweak-source-v1\0" }

  -- The baseline, from `prepared_source` if there is one.
  unfoldable pub capture_from : Option Workspace → M WorkspaceSnapshot
  unfolding mark_staged empty_baseline
  capture_from none = give empty_baseline
  capture_from (some w) =
      if not w.can_capture || w.recovery_before || not w.removed_before
      then throw recovery_required
      else mark_staged >> lift w.baseline

  abbrev pub capture_baseline : M WorkspaceSnapshot
  capture_baseline = capture_from h.workspace

  -- The job is cancelled if a cancellation was requested meanwhile.
  abbrev pub unless_cancelled : Job → Option Job → M Stage
  unless_cancelled job none = give (going job)
  unless_cancelled job (some seen) =
      if seen.cancel_requested
      then (move h seen (to_state cancelled) >>= λ stopped. give (returned stopped))
      else give (going job)

  -- One round of the loop over `(PLANNING, EXECUTING)`. `owner_id` is the owner of the job, since
  -- `get_job` finds a job for its owner only.
  unfoldable pub advance : JobChange → Job → M Stage
  advance change job = do
    job ← move h job change
    latest ← read_job h.surroundings job.id job.owner_id
    unless_cancelled job latest

  unfoldable pub context_from : Job → Option (Fields → GalorResult) → M (Option Fields)
  context_from job none = give none
  context_from job (some fetch) =
      let found = fetch (elim job.project_context [ none ↦ end | some d ↦ d ]) in
      if found.failed
      then call h.surroundings (λ now store.
        append_event job.id job.owner_id "galor_unavailable"
          (field "code" (text "galor_unavailable") end) now store)
        >> give found.context
      else give found.context

  abbrev pub galor_context : Job → M (Option Fields)
  galor_context job = context_from job h.galor

  abbrev pub request_of : Job → Option Fields → AgentRequest
  request_of job context = record {
    mode = job.mode;
    prompt = job.prompt;
    source_inventory = h.source_inventory;
    project_context = job.project_context;
    galor_context = context;
    deadline = h.monotonic + h.job_timeout_seconds;
  }

  unfoldable pub capture_final : WorkspaceSnapshot → Result Fault WorkspaceSnapshot
  capture_final baseline = elim h.workspace [ none ↦ ok baseline | some w ↦ w.final baseline ]

  unfoldable pub runner_receipt :
      Job → String → WorkspaceSnapshot → WorkspaceSnapshot → Result Fault (Option Json)
  runner_receipt job patch baseline final = elim h.runner_verifier [
    | none ↦ ok none
    | some verify ↦
        if is_chat job.mode
        then ok none
        else elim (verify (record {
          job = job;
          patch = patch;
          baseline_digest = baseline.source_digest;
          final_digest = final.source_digest;
          source_commit = h.source_commit;
          source_tree = h.source_tree;
        })) [ err e ↦ err e | ok receipt ↦ ok (some receipt) ]
  ]

  -- The job with its evidence: without an approval it ends, with one it waits.
  unfoldable pub conclude :
      Job → String → EvidenceBundle → Fields → AgentResult → Bool → Option Fields → M Job
  conclude job source bundle manifest result timed none =
      move h job (record (to_state (if timed then timed_out else completed)) {
        proposal_digest = some bundle.proposal_digest;
        evidence_manifest = some manifest;
        summary = some result.summary;
        source_digest = some source;
      })
  conclude job source bundle manifest result timed (some binding) = do
    waiting ← move h job (record (to_state awaiting_approval) {
      proposal_digest = some bundle.proposal_digest;
      evidence_manifest = some manifest;
      summary = some result.summary;
      source_digest = some source;
      approval_proposal =
          some (join_fields binding (field "proposalDigest" (text bundle.proposal_digest) end));
    })
    call h.surroundings (λ now store.
        append_event waiting.id waiting.owner_id "approval_required"
          (field "action" (text "export_patch") (
            field "proposal_digest" (text bundle.proposal_digest)
              (field "source_digest" (text source) (field "revision" (nat waiting.revision) end))))
          now store)
    give waiting

  -- `approval_binding`, read off the clock if an approval is needed.
  unfoldable pub bind_approval : Bool → String → M (Option Fields)
  bind_approval needed source =
      if needed
      then (reading h.surroundings >>= λ now. give (some (approval_binding h source now)))
      else give none

  -- From `TESTING` on.
  unfoldable pub collect : ℕ → WorkspaceSnapshot → AgentResult → Job → M Job
  collect started baseline result latest = do
    tested ← move h latest (to_state testing)
    job ← move h tested (to_state collecting)
    final ← lift (capture_final baseline)
    patch ← lift (evidenced (build_workspace_patch h.patch_tools max_evidence_bytes baseline final))
    receipt ← lift (runner_receipt job patch baseline final)
    commands ← lift h.command_evidence
    journal ← lift h.journal_evidence
    lift (check_action job.mode result.external_action)
    let timed = any (λ t. t) commands.timeouts
    binding ←
        bind_approval (needs_approval timed patch result.external_action) baseline.source_digest
    finished ← reading h.surroundings
    bundle ← lift (
        evidenced (
          build_evidence_bundle h.sha256
            (record {
              plan = result.plan;
              patch = patch;
              tests = commands.log;
              summary = result.summary;
            })
            (join_fields commands.metadata (
              join_fields journal (
                run_metadata baseline.source_digest final.source_digest binding started finished
                  result receipt)))
            max_evidence_bytes))
    manifest ← store_bundle h job.owner_id job.id bundle
    conclude job baseline.source_digest bundle manifest result timed binding
