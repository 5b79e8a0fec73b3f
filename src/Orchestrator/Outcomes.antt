-- ===== src/Orchestrator/Outcomes.antt =====
-- What `run_job` promises of the job that it returns.
use lil_tweak.Prelude.{
  ◌∙◌, eq_iff, string_Eq, ◌≡◌, refl, ap, ◌⊎◌, inl, inr, Bool, true, false, String, Option, some,
  none, ok, arith, if◌then◌else◌, Bool-cases,
}
use lil_tweak.Prelude.Text.{is_blank}
use lil_tweak.Prelude.Table.{All}
use lil_tweak.Json.{Fields}
use lil_tweak.Contracts.{
  JobState, awaiting_approval, completed, timed_out, is_terminal, max_evidence_bytes,
}
use lil_tweak.State.{is_exceptional}
use lil_tweak.Jobs.Model.{Job}
use lil_tweak.Jobs.Updates.{get_job}
use lil_tweak.Jobs.Leases.{is_settled}
use lil_tweak.Evidence.Snapshots.{WorkspaceSnapshot, all_names}
use lil_tweak.Evidence.Patch.Emptiness.{HasMarks, IsQuiet, empty_patch_iff}
use lil_tweak.Orchestrator.Session.{Session, arrive}
use lil_tweak.Orchestrator.Host.{Host, AgentResult}
use lil_tweak.Orchestrator.Evidence.{needs_approval}
use lil_tweak.Orchestrator.Run.{run_job, capture_final, capture_baseline, request_of}
use lil_tweak.Orchestrator.Endings.{over, stopped, ran_out, run_job-Ended}

exceptional-settled : (x : JobState) → is_exceptional x ≡ true → is_settled x ≡ true
exceptional-settled x h = ground arith

terminal-settled : (x : JobState) → is_terminal x ≡ true → is_settled x ≡ true
terminal-settled x h = ground arith

end-settled :
    (needed timed : Bool) (x : JobState)
    → x ≡ (if needed then awaiting_approval else if timed then timed_out else completed)
    → is_settled x ≡ true
end-settled true timed x e = rw e refl
end-settled false true x e = rw e refl
end-settled false false x e = rw e refl

-- A job that `run_job` returns waits for approval or is in a terminal state, whatever the agent, the workspace and the evidence store do, whatever other threads call on the store meanwhile, and whatever exception is caught.
pub run_job_settles :
    (h : Host) (id owner : String) (s t : Session) (j : Job)
    → run_job h id owner s ≡ (ok j, t)
    → is_settled j.state ≡ true
run_job_settles h id owner s t j e = elim (run_job-Ended h id owner s t j e) [
  | over _ done ↦ terminal-settled j.state done
  | stopped h ↦ exceptional-settled j.state h
  | ran_out r ↦
      end-settled (needs_approval r.collected.timed r.collected.patch r.result.external_action)
        r.collected.timed j.state r.collected.ended
]

-- A run whose agent proposed no external action and whose two snapshots differ in no text.
pub record IsHarmless (h : Host) (j : Job) : Type 0 where
  pub began : Session
  pub baseline : WorkspaceSnapshot
  pub final : WorkspaceSnapshot
  pub running : Job
  pub context : Option Fields
  pub result : AgentResult
  pub captured : (capture_baseline h began).0 ≡ ok baseline
  pub taken : capture_final h baseline ≡ ok final
  pub ran : h.run_agent (request_of h running context) ≡ ok result
  pub reported : j.summary ≡ result.summary
  pub no_action : result.external_action ≡ none
  pub quiet :
      All (IsQuiet h.patch_tools baseline final) (all_names h.patch_tools.sha256 baseline final)

unneeded :
    (timed : Bool) (patch : String) (action : Option Fields) (x : JobState)
    → x ≡ (
        if needs_approval timed patch action
        then awaiting_approval
        else if timed
        then timed_out
        else completed)
    → x ≡ completed
    → (patch ≡ "") × (action ≡ none)
unfolding needs_approval
unneeded true patch action x e done = ground (arith, e, done)
unneeded false patch (some a) x e done = ground (arith, e, done)
unneeded false patch none x e done = elim (Bool-cases (is_blank patch)) [
  | inl blank ↦ ((eq_iff patch "").0 blank, refl)
  | inr filled ↦ ground (arith, e, done, filled)
]

-- If `run_job` returns a completed job, the job was completed before, or the agent that reported its summary proposed no external action, and between the captured baseline and the final snapshot no path of the workspace has a text that differs; each line of a diff has its mark.
pub completed_run-IsHarmless :
    (h : Host) (id owner : String) (s t : Session) (j : Job)
    → HasMarks h.patch_tools
    → run_job h id owner s ≡ (ok j, t)
    → j.state ≡ completed
    → (get_job id owner (arrive h.surroundings s).store ≡ some j) ⊎ IsHarmless h j
completed_run-IsHarmless h id owner s t j marks e done = elim (run_job-Ended h id owner s t j e) [
  | over found _ ↦ inl found
  | stopped x ↦ ground (arith, x, done)
  | ran_out r ↦
      let (empty, no_action) =
        unneeded r.collected.timed r.collected.patch r.result.external_action j.state
          r.collected.ended done in
      inr (record {
        baseline = r.baseline;
        final = r.collected.final;
        began = r.began;
        running = r.running;
        context = r.context;
        captured = r.captured;
        reported = r.collected.reported;
        result = r.result;
        taken = r.collected.taken;
        ran = r.ran;
        no_action = no_action;
        quiet =
            (empty_patch_iff h.patch_tools max_evidence_bytes r.baseline r.collected.final marks).0
              (r.collected.patched ∙ ap ok empty);
      })
]
