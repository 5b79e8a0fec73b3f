-- ===== src/Examples/Judgements.antt =====
-- An attempt that the runner carries out in a workspace that counts its steps.
use lil_tweak.Prelude.{
  ℕ, ◌+◌, ◌≡◌, refl, true, false, Bool, some, none, [], Result, ok, err, string_Eq, pair_Eq, arith,
  ◌⊎◌,
}
use lil_tweak.Prelude.Text.{strip, is_hex_text}
use lil_tweak.Prelude.Table.{get, put, remove}
use lil_tweak.Json.{null, bool, Fields, end, field, get_field}
use lil_tweak.TestWorld.Model.{World, Attempt, AttemptStatus}
use lil_tweak.TestWorld.Queries.{get_attempt, get_world}
use lil_tweak.Json.Text.{are_fields_dumpable, fields_bytes}
use lil_tweak.TestWorld.Checks.{
  validate_duration, proofs_match, is_valid_world, has_complete_pass_proof, validate_feedback,
}
use lil_tweak.TestWorld.Admission.{
  create_world, new_world, enqueue_attempt, enqueue_in, any_active, admit_attempt,
}
use lil_tweak.TestWorld.Leases.{claim_attempt, take_lease, mark_running, same_holder}
use lil_tweak.TestWorld.Results.{
  complete_attempt, complete_held, completed, finish, held_attempt, check_report,
}
use lil_tweak.TestWorld.Steps.Runs.{run, after}
use lil_tweak.TestWorld.Runner.{
  Tools, Raised, finding, entering, run_attempt, run_leased, execute, judge, apply_previous,
  previous_of, settle, is_preclaimed, arrive,
}
use lil_tweak.TestWorld.Runner.Feedback.{judge_feedback}
use lil_tweak.TestWorld.Runner.Verdicts.{IsJudged}
use lil_tweak.TestWorld.Runner.Passed.{IsOver, started, passed_run-IsJudged}
use lil_tweak.Examples.Worlds.{hashes, lease, at_claimed}
use lil_tweak.Orchestrator.Host.{AgentResult}

abbrev passes : Fields
passes =
    field "passed" (bool true)
      (field "exitCode" null (field "timedOut" (bool false) (field "truncated" (bool false) end)))

abbrev result : AgentResult
result = record {
  plan = "p";
  summary = "done";
  tests = "";
  patch = "";
  external_action = none;
  commands = [];
  model_calls = 1;
  input_tokens = 2;
  output_tokens = 3;
  total_tokens = 5;
}

abbrev tools : Tools ℕ
tools = record {
  hashes = hashes;
  worker_id = "worker";
  lease_seconds = 10;
  prepare_workspace = λ _ _. ok 0;
  apply_previous_patch = λ n _. ok (n + 1);
  run_agent = λ n _. ok (n + 1, result);
  capture_cumulative_patch = λ _. ok "diff";
  run_check = λ n _. ok (n + 1, passes);
  cleanup_workspace = λ _. ok tt;
  others = λ _. [];
  clock = λ _. 5;
  attempt_started = 10;
  judge_started = 12;
  judge_finished = 15;
  attempt_finished = 16;
  failed_at = 0;
}

abbrev outcome : Result Raised Attempt
outcome = (run_attempt tools "a" "owner" (some lease) at_claimed).0

is_pass : Result Raised Attempt → Bool
is_pass (ok a) = elim a.status [ AttemptStatus.passed ↦ true | _ ↦ false ]
is_pass (err _) = false

pass-cases :
    (r : Result Raised Attempt)
    → is_pass r ≡ true
    → (a : Attempt) × (r ≡ ok a) × (a.status ≡ AttemptStatus.passed)
unfolding is_pass
pass-cases (ok a) h = (a, refl, ground (arith, h))
pass-cases (err e) h = ground (arith, h)

passes-run : (a : Attempt) × (outcome ≡ ok a) × (a.status ≡ AttemptStatus.passed)
unfolding is_pass run_attempt run_leased execute judge apply_previous previous_of settle
    is_preclaimed get_attempt judge_feedback get_field complete_attempt complete_held completed
    finish held_attempt same_holder check_report are_fields_dumpable fields_bytes validate_duration
    proofs_match validate_feedback has_complete_pass_proof run after get put remove strip
    create_world new_world is_valid_world is_hex_text enqueue_attempt get_world enqueue_in
    any_active admit_attempt claim_attempt take_lease mark_running
passes-run = pass-cases outcome refl

passed_run-IsJudged_example :
    IsOver tools "a" "owner"
      (some lease)
      at_claimed
      (run_attempt tools "a" "owner" (some lease) at_claimed).1
      passes-run.0
    ⊎ ((attempt : Attempt) × (world : World) × (get_attempt "a" "owner"
            (arrive tools finding at_claimed)
          ≡ some attempt)
        × (get_world attempt.world_id "owner"
              (arrive tools entering (started tools "a" (some lease) at_claimed))
            ≡ some world)
        × IsJudged tools world attempt passes-run.0.cumulative_patch)
passed_run-IsJudged_example =
    passed_run-IsJudged tools "a" "owner" (some lease) at_claimed
      (run_attempt tools "a" "owner" (some lease) at_claimed).1 passes-run.0
      (λ i. (passes-run.1 i, (run_attempt tools "a" "owner" (some lease) at_claimed).1))
      passes-run.2
