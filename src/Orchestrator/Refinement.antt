-- ===== src/Orchestrator/Refinement.antt =====
-- `run_job` as a sequence of calls of the job store.
mod Steps
use lil_tweak.Prelude.{
  ℕ, ◌+◌, ◌≡◌, refl, sym, ap, ◌∙◌, inl, inr, Bool, true, false, not, ◌&&◌, ◌||◌, String, Option,
  some, none, List, [], ◌∷◌, ◌++◌, Result, ok, err, if◌then◌else◌, any, Option-cases, arith,
  string_Eq,
}
use lil_tweak.Prelude.Text.{◌<>◌}
use lil_tweak.Prelude.Table.{Table, get}
use lil_tweak.Json.{Json, nat, text, Fields, end, field, obj}
use lil_tweak.Contracts.{
  queued, ingesting, planning, executing, testing, collecting, awaiting_approval, completed,
  cancelled, failed, timed_out, is_terminal, max_evidence_bytes,
}
use lil_tweak.Jobs.Model.{Job, JobEvent, JobLease, JobStore, job_not_found}
use lil_tweak.Jobs.Updates.{JobChange, transition_job}
use lil_tweak.Jobs.Events.{append_event}
use lil_tweak.Jobs.Leases.{renew_claim}
use lil_tweak.Jobs.Logs.{job_after, job_run}
use lil_tweak.Jobs.Logs.Runs.{log_only_grows}
use lil_tweak.Evidence.Snapshots.{WorkspaceSnapshot}
use lil_tweak.Evidence.Patch.{build_workspace_patch}
use lil_tweak.Evidence.Bundle.{EvidenceBundle, build_evidence_bundle}
use lil_tweak.Orchestrator.Session.{
  M, Session, Fault, recovery_required, deadline_passed, raised, fault, call, read_job, reading,
  arrive, catch, lift, give, throw, ◌>>=◌, ◌>>◌,
}
use lil_tweak.Orchestrator.Host.{Host, AgentResult, Workspace, GalorResult}
use lil_tweak.Orchestrator.Moves.{
  keep_lease, renew_lease, transition_now, move, to_state, state_value,
}
use lil_tweak.Orchestrator.Evidence.{store_files, store_bundle}
use lil_tweak.Orchestrator.Run.{
  unless_cancelled, collect_latest, run_found, mark_staged, capture_from, context_from, Stage,
  returned, going, after_stage, request_of, conclude, collect, bind_approval, capture_final,
  evidenced, attempt, recover, recover_latest, stop_job, clean_up, with_clean_up, lacks_source,
  run_job, advance, start_up, capture_baseline, galor_context, runner_receipt,
}
use lil_tweak.Orchestrator.Traces.{
  RunnerCall, reads, renews, moves, logs, call_of, turn, turns, place, Traced, Traced-bind,
  Traced-catch, Traced-if, Traced-read, Traced-reading, Traced-call,
}
use lil_tweak.Orchestrator.Refinement.Steps.{
  Keeps, Keeps-move, Keeps-log, Keeps-collect, Keeps-start_up, Keeps-capture_from,
  Keeps-context_from, Keeps-advance,
}

module _ (h : Host) where
  Keeps-collect_latest :
      (started : ℕ) (baseline : WorkspaceSnapshot) (result : AgentResult) (latest : Option Job)
      → Keeps h (collect_latest h started baseline result latest)
  unfolding turns
  Keeps-collect_latest started baseline result none = λ s. ([], refl)
  Keeps-collect_latest started baseline result (some seen) =
      Traced-if h.surroundings seen.cancel_requested _ _ (Keeps-move h seen (to_state cancelled))
        (Keeps-collect h started baseline result seen)

  Keeps-after_stage :
      (next : Job → M Job)
      → ((job : Job) → Keeps h (next job))
      → (stage : Stage) → Keeps h (after_stage next stage)
  unfolding turns
  Keeps-after_stage next keeps (returned job) = λ s. ([], refl)
  Keeps-after_stage next keeps (going job) = keeps job

  Keeps-attempt : (started : ℕ) (job : Job) → Keeps h (attempt h started job)
  unfolding attempt turns
  Keeps-attempt started job =
      let w = h.surroundings in
      Traced-bind w _ _ (Keeps-start_up h job) λ ready.
        Traced-bind w _ _ (Keeps-capture_from h h.workspace) λ baseline.
          Traced-bind w _ _ (Keeps-advance h _ ready) (
            Keeps-after_stage _ λ planned. Traced-bind w _ _ (Keeps-advance h _ planned) (
              Keeps-after_stage _ λ running.
                Traced-bind w _ _ (Keeps-context_from h running h.galor) λ context.
                  Traced-bind w _ _ (λ s. ([], refl))
                    λ result.
                      Traced-bind w _ _ (Traced-read w running.id running.owner_id)
                        λ latest. Keeps-collect_latest started baseline result latest))

  Keeps-stop_job :
      (id owner : String) (e : Fault) (seen : Job) → Keeps h (stop_job h id owner e seen)
  unfolding stop_job turns
  Keeps-stop_job id owner deadline_passed seen = Keeps-move h seen (to_state timed_out)
  Keeps-stop_job id owner _ seen =
      Traced-bind h.surroundings _ _ (Keeps-move h seen (to_state failed))
        λ stopped. Traced-bind h.surroundings _ _ (Keeps-log h id owner _ _) λ _ s. ([], refl)

  Keeps-recover_latest :
      (id owner : String) (e : Fault) (latest : Option Job)
      → Keeps h (recover_latest h id owner e latest)
  unfolding recover_latest turns
  Keeps-recover_latest id owner e none = λ s. ([], refl)
  Keeps-recover_latest id owner e (some seen) =
      Traced-if h.surroundings (is_terminal seen.state) _ _ (λ s. ([], refl))
        (Traced-if h.surroundings seen.cancel_requested _ _ (Keeps-move h seen (to_state cancelled))
          (Keeps-stop_job id owner e seen))

  Keeps-recover : (id owner : String) (e : Fault) → Keeps h (recover h id owner e)
  unfolding recover turns
  Keeps-recover id owner recovery_required = λ s. ([], refl)
  Keeps-recover id owner e =
      Traced-bind h.surroundings _ _ (Traced-read h.surroundings id owner)
        (Keeps-recover_latest id owner e)

  cleaned : (r : Result Fault Job) (s : Session) → (clean_up h r s).1 ≡ s
  unfolding clean_up
  cleaned r s = ground arith

  Keeps-cleaned : (m : M Job) → Keeps h m → Keeps h (with_clean_up h m)
  Keeps-cleaned m keeps s = ((keeps s).0, (keeps s).1 ∙ ap place (sym (cleaned (m s).0 (m s).1)))

  Keeps-run_found : (id owner : String) (found : Option Job) → Keeps h (run_found h id owner found)
  unfolding turns
  Keeps-run_found id owner none = λ s. ([], refl)
  Keeps-run_found id owner (some job) =
      let w = h.surroundings in
      Traced-if w (is_terminal job.state) _ _ (λ s. ([], refl))
        (Traced-if w job.cancel_requested _ _ (Keeps-move h job (to_state cancelled)) (
          Traced-if w (lacks_source h job) _ _ (λ s. ([], refl))
            (Traced-bind w _ _ (Traced-reading w) λ started.
              Keeps-cleaned _
                (Traced-catch w _ _ (Keeps-attempt started job) (Keeps-recover id owner)))))

-- `run_job` refines a machine that only reads the job store, renews leases, transitions jobs and appends events: from any session, with an outcome or an exception, it leaves the store as a sequence of such calls does, each at the clock's reading and after the calls that other threads make before it.
pub run_job_is_a_run :
    (h : Host) (id owner : String) (s : Session)
    → (calls : List RunnerCall) × (turns h.surroundings calls (place s)
        ≡ place (run_job h id owner s).1)
unfolding run_job
run_job_is_a_run h id owner =
    Traced-bind h.surroundings _ _ (Traced-read h.surroundings id owner)
      (Keeps-run_found h id owner)
