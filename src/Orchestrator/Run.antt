-- ===== src/Orchestrator/Run.antt =====
-- `run_job` of `EngineeringOrchestrator`.
mod Phases
unfoldable pub use Phases.{
  mark_staged, start_up, capture_from, advance, context_from, capture_final, runner_receipt,
  conclude, bind_approval, collect,
}
pub use Phases.{
  after_stage, unless_returned, evidenced, capture_baseline, unless_cancelled, galor_context,
  request_of, Stage, returned, going,
}
use lil_tweak.Prelude.{
  ℕ, ◌+◌, Bool, true, false, not, ◌&&◌, ◌||◌, String, Option, some, none, List, [], ◌∷◌, any,
  if◌then◌else◌, Result, ok, err,
}
use lil_tweak.Prelude.Text.{◌<>◌}
use lil_tweak.Json.{Json, nat, text, Fields, end, field}
use lil_tweak.Contracts.{
  JobState, draft, queued, ingesting, planning, executing, testing, collecting, awaiting_approval,
  completed, cancelled, failed, timed_out, is_terminal, max_evidence_bytes,
}
use lil_tweak.Jobs.Model.{Job, job_not_found}
use lil_tweak.Jobs.Events.{append_event}
use lil_tweak.Jobs.Updates.{JobChange}
use lil_tweak.Evidence.Snapshots.{WorkspaceSnapshot, Evidenced}
use lil_tweak.Evidence.Patch.{build_workspace_patch}
use lil_tweak.Evidence.Bundle.{EvidenceBundle, build_evidence_bundle}
use lil_tweak.Orchestrator.Session.{
  M, Session, Fault, raised, recovery_required, deadline_passed, fault, give, throw, catch, lift,
  call, read_job, reading, ◌>>=◌, ◌>>◌,
}
use lil_tweak.Orchestrator.Host.{
  Host, AgentResult, AgentRequest, GalorResult, Workspace, VerifyRequest, CommandEvidence,
}
use lil_tweak.Orchestrator.Moves.{move, to_state}
use lil_tweak.Orchestrator.Evidence.{
  check_action, needs_approval, is_chat, is_some, join_fields, approval_binding, run_metadata,
  store_bundle,
}

module _ (h : Host) where
  -- After the agent ran: the job is as it is now.
  abbrev pub collect_latest : ℕ → WorkspaceSnapshot → AgentResult → Option Job → M Job
  collect_latest started baseline result none = throw (raised job_not_found)
  collect_latest started baseline result (some seen) =
      if seen.cancel_requested
      then move h seen (to_state cancelled)
      else collect h started baseline result seen

  -- The body of the `try`.
  unfoldable pub attempt : ℕ → Job → M Job
  attempt started job = do
    ready ← start_up h job
    baseline ← capture_baseline h
    unless_returned
        (advance h (record (to_state planning) { source_digest = some baseline.source_digest })
          ready)
        λ planned. unless_returned (advance h (to_state executing) planned) λ running. (do
          context ← galor_context h running
          result ← lift (h.run_agent (request_of h running context))
          latest ← read_job h.surroundings running.id running.owner_id
          collect_latest started baseline result latest)

  -- The end of `except Exception`: the job timed out, or failed.
  unfoldable pub stop_job : String → String → Fault → Job → M Job
  stop_job id owner deadline_passed seen = move h seen (to_state timed_out)
  stop_job id owner _ seen = do
    stopped ← move h seen (to_state failed)
    call h.surroundings (λ now store.
        append_event id owner "engineering_failed" (field "code" (text "engineering_failed") end)
          now store)
    give stopped

  -- What `except Exception` does with the job as it is now.
  unfoldable pub recover_latest : String → String → Fault → Option Job → M Job
  unfolding stop_job
  recover_latest id owner e none = throw e
  recover_latest id owner e (some seen) =
      if is_terminal seen.state
      then throw e
      else if seen.cancel_requested
      then move h seen (to_state cancelled)
      else stop_job id owner e seen

  -- The `except` clauses.
  unfoldable pub recover : String → String → Fault → M Job
  unfolding recover_latest
  recover id owner recovery_required = throw recovery_required
  recover id owner e = read_job h.surroundings id owner >>= recover_latest id owner e

  -- The `finally` clause: the snapshots are removed, unless a recovery needs them.
  unfoldable pub clean_up : Result Fault Job → Session → Result Fault Job × Session
  clean_up (err recovery_required) s = (err recovery_required, s)
  clean_up result s = elim h.workspace [
    | none ↦ (result, s)
    | some w ↦
        if s.staged && not w.recovery_after && not w.removed_after
        then (err recovery_required, s)
        else (result, s)
  ]

  abbrev pub with_clean_up : M Job → M Job
  with_clean_up m s = let (result, after) = m s in clean_up result after

  -- Whether the verifier of the GitHub runner lacks the identity of the source.
  abbrev pub lacks_source : Job → Bool
  lacks_source job =
      is_some h.runner_verifier
      && not (is_chat job.mode)
      && (not (is_some job.git_source)
          || not (is_some h.workspace)
          || not (is_some h.source_commit)
          || not (is_some h.source_tree))

  abbrev pub run_found : String → String → Option Job → M Job
  run_found id owner none = throw (raised job_not_found)
  run_found id owner (some job) =
      if is_terminal job.state
      then give job
      else if job.cancel_requested
      then move h job (to_state cancelled)
      else if lacks_source job
      then throw (fault "GitHub runner requires verified Git source identity")
      else reading h.surroundings >>= λ started.
          with_clean_up (catch (attempt started job) (recover id owner))

  unfoldable pub run_job : String → String → M Job
  unfolding attempt recover clean_up
  run_job id owner = read_job h.surroundings id owner >>= run_found id owner
