-- ===== src/Examples/Orchestrations.antt =====
-- A job that is run to its end without a workspace: nothing to approve.
use lil_tweak.Prelude.{
  ◌≡◌, ◌⊎◌, refl, arith, true, false, Bool, some, none, List, [], ok, err, string_Eq, Result,
}
use lil_tweak.Prelude.Table.{get, put}
use lil_tweak.Json.{get_field}
use lil_tweak.Json.Print.{dumps}
use lil_tweak.State.{transition}
use lil_tweak.Jobs.Model.{moved_to}
use lil_tweak.Jobs.Updates.{update_job, transition_job, lease_fits}
use lil_tweak.Jobs.Events.{
  append_event, append_event_locked, owned_job, validated_event_data, is_valid_event,
}
use lil_tweak.Jobs.Logs.{job_run}
use lil_tweak.Evidence.Patch.{build_workspace_patch, patch_names}
use lil_tweak.Evidence.Bundle.{build_evidence_bundle}
use lil_tweak.Orchestrator.Session.{◌>>=◌, read_job, reading, catch, call}
use lil_tweak.Orchestrator.Moves.{move, renew_lease, transition_now, state_value}
use lil_tweak.Orchestrator.Evidence.{
  check_action, needs_approval, run_metadata, join_fields, store_bundle, store_files,
}
use lil_tweak.Orchestrator.Run.{
  start_up, capture_from, advance, context_from, collect, capture_final, runner_receipt,
  bind_approval, conclude, clean_up, attempt,
}
use lil_tweak.Recovery.Contracts.{sort_unique}
use lil_tweak.Json.{end}
use lil_tweak.Contracts.{completed}
use lil_tweak.Jobs.Leases.{is_settled}
use lil_tweak.Jobs.Model.{Job}
use lil_tweak.Jobs.Updates.{get_job}
use lil_tweak.Orchestrator.Session.{Session, Fault, arrive}
use lil_tweak.Orchestrator.Host.{Host, AgentResult}
use lil_tweak.Orchestrator.Run.{run_job}
use lil_tweak.Orchestrator.Traces.{RunnerCall, turns, place}
use lil_tweak.Orchestrator.Refinement.{run_job_is_a_run}
use lil_tweak.Orchestrator.Outcomes.{run_job_settles, completed_run-IsHarmless, IsHarmless}
use lil_tweak.Examples.Stores.{fresh_draft, at_draft}
use lil_tweak.Examples.Patches.{tools, tools-HasMarks}

abbrev answer : AgentResult
answer = record {
  plan = "p";
  summary = "done";
  tests = "";
  patch = "";
  external_action = none;
  commands = [];
  model_calls = 1;
  input_tokens = 2;
  output_tokens = 3;
  total_tokens = 5;
}

abbrev host : Host
host = record {
  surroundings = record {
    digesters = record { fingerprint = λ _. "f"; sha256 = λ _. "d" };
    clock = λ n. n;
    others = λ _. [];
  };
  sha256 = λ _. "d";
  patch_tools = tools;
  iso_timestamp = λ _. "t";
  run_agent = λ _. ok answer;
  workspace = none;
  galor = none;
  runner_verifier = none;
  command_evidence = ok (record { log = ""; metadata = end; timeouts = [] });
  journal_evidence = ok end;
  put_evidence = λ key bytes digest. ok (record { key = key; sha256 = digest; size = 1 });
  monotonic = 0;
  job_timeout_seconds = 60;
  lease_seconds = 30;
  source_inventory = [];
  source_commit = none;
  source_tree = none;
}

abbrev start : Session
start = record { store = at_draft; lease = none; count = 0; staged = false }

abbrev ended : Session
ended = (run_job host "j" "o" start).1

abbrev job_in : Result Fault Job → Job
job_in (ok job) = job
job_in (err _) = fresh_draft

abbrev job : Job
job = job_in (run_job host "j" "o" start).0

run_job_is_a_run_example :
    (calls : List RunnerCall) × (turns host.surroundings calls (place start) ≡ place ended)
run_job_is_a_run_example = run_job_is_a_run host "j" "o" start

is_ok : Result Fault Job → Bool
is_ok (ok _) = true
is_ok (err _) = false

ok-job_in : (r : Result Fault Job) → is_ok r ≡ true → r ≡ ok (job_in r)
unfolding is_ok
ok-job_in (ok j) e = refl
ok-job_in (err x) e = ground (arith, e)

job_runs : run_job host "j" "o" start ≡ (ok job, ended)
unfolding is_ok run_job ◌>>=◌ read_job get_job get put arrive job_run reading catch start_up move
    renew_lease transition_now call transition_job validated_event_data is_valid_event update_job
    owned_job lease_fits moved_to transition append_event append_event_locked capture_from advance
    context_from collect capture_final runner_receipt check_action bind_approval needs_approval
    run_metadata join_fields build_workspace_patch patch_names build_evidence_bundle dumps
    store_bundle store_files conclude clean_up get_field state_value attempt sort_unique
job_runs = λ i. (ok-job_in (run_job host "j" "o" start).0 refl i, ended)

job_completes : job.state ≡ completed
unfolding run_job ◌>>=◌ read_job get_job get put arrive job_run reading catch start_up move
    renew_lease transition_now call transition_job validated_event_data is_valid_event update_job
    owned_job lease_fits moved_to transition append_event append_event_locked capture_from advance
    context_from collect capture_final runner_receipt check_action bind_approval needs_approval
    run_metadata join_fields build_workspace_patch patch_names build_evidence_bundle dumps
    store_bundle store_files conclude clean_up get_field state_value attempt sort_unique
job_completes = refl

run_job_settles_example : is_settled job.state ≡ true
run_job_settles_example = run_job_settles host "j" "o" start ended job job_runs

completed_run-IsHarmless_example :
    (get_job "j" "o" (arrive host.surroundings start).store ≡ some job) ⊎ IsHarmless host job
completed_run-IsHarmless_example =
    completed_run-IsHarmless host "j" "o" start ended job tools-HasMarks job_runs job_completes
