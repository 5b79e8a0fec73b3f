-- ===== src/Examples/Worlds.antt =====
-- A test world that is created, tried and passed, and leases that are lost on the way.
use lil_tweak.Prelude.{
  ◌≤◌, ◌≡◌, refl, true, false, some, none, List, [], ◌∷◌, length, any, ◌==◌, string_Eq, String, ok,
  err, arith,
}
use lil_tweak.Prelude.Text.{is_hex_text, strip}
use lil_tweak.Prelude.Table.{get, put, remove}
use lil_tweak.Json.{Json, Fields, field, end, get_field}
use lil_tweak.Json.Text.{are_fields_dumpable, fields_bytes}
use lil_tweak.Prelude.Sorting.{sort_by}
use lil_tweak.TestWorld.Queries.{get_world}
use lil_tweak.TestWorld.Model.{
  World, WorldStatus, Attempt, AttemptStatus, retry, Lease, Store, empty_store, conflict,
}
use lil_tweak.TestWorld.Checks.{
  WorldSpec, is_valid_world, has_complete_pass_proof, proofs_match, validate_feedback,
  validate_duration,
}
use lil_tweak.TestWorld.Admission.{
  Hashes, create_world, new_world, enqueue_attempt, enqueue_in, any_active, admit_attempt,
}
use lil_tweak.TestWorld.Leases.{
  reconcile_active_attempts, requeue, claim_attempt, take_lease, mark_running, renew_attempt,
  release_attempt, same_holder,
}
use lil_tweak.TestWorld.Results.{
  Report, complete_attempt, complete_held, completed, finish, check_report, check_failure,
  fail_attempt, held_attempt,
}
use lil_tweak.TestWorld.Steps.Runs.{Call, run, after, IsFreshRun, run-IsSound, empty-IsSound}
use lil_tweak.TestWorld.Steps.Runs.Worlds.{
  one_lease_per_world, passed_was_proved, closed_world_is_final, attempts_within_budget,
}
use lil_tweak.TestWorld.Steps.Runs.Fencing.{IsRefused, reclaimed_lease_is_fenced}
use lil_tweak.TestWorld.Steps.Runs.Renewals.{renewed_lease_cannot_fail}
use lil_tweak.TestWorld.Steps.Runs.Passing.{claimed_attempt_can_pass}

abbrev pub hashes : Hashes
hashes = record { world_fingerprint = λ _ _ _ _ _ _. "f"; judge_version = λ _. "j" }

abbrev definition : WorldSpec
definition = record {
  owner_id = "owner";
  idempotency_key = "key";
  name = "world";
  objective = "make the tests pass";
  repository_url = "https://example.com/r.git";
  commit = "0123456789abcdef0123456789abcdef01234567";
  checks = record { name = "unit"; command = "pytest" ∷ []; timeout_seconds = 60 } ∷ [];
  max_attempts = 2;
}

-- The judge's feedback: the one check passed.
abbrev feedback : List Fields
feedback = field "check" (Json.text "unit") (field "passed" (Json.bool true) end) ∷ []

abbrev report : Report
report = record {
  passed = true;
  feedback = feedback;
  cumulative_patch = "diff";
  plan = "";
  summary = "done";
  tests = "";
  model_calls = 1;
  input_tokens = 1;
  output_tokens = 1;
  total_tokens = 2;
  duration_ms = 5;
  judge_duration_ms = 3;
}

abbrev enqueued : List Call
enqueued = Call.create definition "w" 1 ∷ Call.enqueue "w" "owner" "k1" retry "a" 2 ∷ []

abbrev claimed : List Call
claimed =
    Call.create definition "w" 1
    ∷ Call.enqueue "w" "owner" "k1" retry "a" 2
    ∷ Call.claim "a" "worker" 10 3
    ∷ []

abbrev pub lease : Lease
lease = record {
  attempt_id = "a";
  world_id = "w";
  owner_id = "owner";
  worker_id = "worker";
  generation = 1;
  expires_at = 13;
}

abbrev finished : List Call
finished =
    Call.create definition "w" 1
    ∷ Call.enqueue "w" "owner" "k1" retry "a" 2
    ∷ Call.claim "a" "worker" 10 3
    ∷ Call.complete lease report 7
    ∷ []

enqueued-IsFreshRun : IsFreshRun hashes enqueued empty_store
unfolding run after get put remove strip create_world new_world is_valid_world is_hex_text
    enqueue_attempt get_world enqueue_in any_active admit_attempt claim_attempt take_lease
    mark_running
enqueued-IsFreshRun = (refl, (refl, tt))

claimed-IsFreshRun : IsFreshRun hashes claimed empty_store
unfolding run after get put remove strip create_world new_world is_valid_world is_hex_text
    enqueue_attempt get_world enqueue_in any_active admit_attempt claim_attempt take_lease
    mark_running
claimed-IsFreshRun = (refl, (refl, (tt, tt)))

finished-IsFreshRun : IsFreshRun hashes finished empty_store
unfolding run after get put remove strip create_world new_world is_valid_world is_hex_text
    enqueue_attempt get_world enqueue_in any_active admit_attempt claim_attempt take_lease
    mark_running
finished-IsFreshRun = (refl, (refl, (tt, (tt, tt))))

-- The states after these calls.
abbrev pub at_claimed : Store
at_claimed = run hashes claimed empty_store

abbrev at_finished : Store
at_finished = run hashes finished empty_store

one_lease_per_world_example : lease ≡ lease
unfolding run after get put remove strip create_world new_world is_valid_world is_hex_text
    enqueue_attempt get_world enqueue_in any_active admit_attempt claim_attempt take_lease
    mark_running
one_lease_per_world_example =
    one_lease_per_world hashes claimed "a" "a" lease lease claimed-IsFreshRun refl refl refl

-- The world and its attempt as they stand at the end.
abbrev world : World
world = record {
  id = "w";
  owner_id = "owner";
  name = "world";
  objective = "make the tests pass";
  repository_url = definition.repository_url;
  commit = definition.commit;
  checks = definition.checks;
  max_attempts = 2;
  status = WorldStatus.passed;
  fingerprint = "f";
  judge_version = "j";
  created_at = 1;
  updated_at = 7;
}

passed_was_proved_example :
    (j : String) × (a : Attempt) × (get j at_finished.attempts ≡ some a)
    × (a.status ≡ AttemptStatus.passed)
    × (a.world_id ≡ "w")
    × (has_complete_pass_proof world a.feedback ≡ true)
unfolding run after get put remove strip create_world new_world is_valid_world is_hex_text
    enqueue_attempt get_world enqueue_in any_active admit_attempt claim_attempt take_lease
    mark_running complete_attempt check_report validate_feedback validate_duration held_attempt
    complete_held finish completed has_complete_pass_proof proofs_match are_fields_dumpable
    fields_bytes same_holder get_field
passed_was_proved_example =
    passed_was_proved hashes finished "w" world finished-IsFreshRun refl refl

abbrev later : List Call
later = Call.enqueue "w" "owner" "k2" retry "b" 9 ∷ []

later-IsFreshRun : IsFreshRun hashes later at_finished
unfolding run after get put remove strip create_world new_world is_valid_world is_hex_text
    enqueue_attempt get_world enqueue_in any_active admit_attempt claim_attempt take_lease
    mark_running complete_attempt check_report validate_feedback validate_duration held_attempt
    complete_held finish completed has_complete_pass_proof proofs_match are_fields_dumpable
    fields_bytes same_holder get_field
later-IsFreshRun = (refl, tt)

closed_world_is_final_example : get "w" (run hashes later at_finished).worlds ≡ some world
unfolding run after get put remove strip create_world new_world is_valid_world is_hex_text
    enqueue_attempt get_world enqueue_in any_active admit_attempt claim_attempt take_lease
    mark_running complete_attempt check_report validate_feedback validate_duration held_attempt
    complete_held finish completed has_complete_pass_proof proofs_match are_fields_dumpable
    fields_bytes same_holder get_field
closed_world_is_final_example =
    closed_world_is_final hashes finished later "w" world finished-IsFreshRun later-IsFreshRun refl
      refl

-- The attempt as it was enqueued.
abbrev attempt : Attempt
attempt = record {
  id = "a";
  world_id = "w";
  owner_id = "owner";
  number = 1;
  status = AttemptStatus.queued;
  world_fingerprint = "f";
  judge_version = "j";
  mode = retry;
  outcome = none;
  previous_attempt_id = none;
  feedback = [];
  cumulative_patch = "";
  plan = "";
  summary = "";
  tests = "";
  model_calls = 0;
  input_tokens = 0;
  output_tokens = 0;
  total_tokens = 0;
  duration_ms = 0;
  judge_duration_ms = 0;
  created_at = 2;
  started_at = none;
  finished_at = none;
}

abbrev open_world : World
open_world = record world { status = WorldStatus.running; updated_at = 2 }

attempts_within_budget_example :
    (any {A = String} (λ i. i == "a") ("a" ∷ []) ≡ true) × (length {A = String} ("a" ∷ []) ≤ 2)
unfolding run after get put remove strip create_world new_world is_valid_world is_hex_text
    enqueue_attempt get_world enqueue_in any_active admit_attempt claim_attempt take_lease
    mark_running
attempts_within_budget_example =
    attempts_within_budget hashes enqueued "a" attempt open_world ("a" ∷ []) enqueued-IsFreshRun
      refl refl refl

-- The lease runs out, the attempt is taken back, and another worker claims it.
abbrev given_up : List Call
given_up = Call.reconcile 20 10 ∷ []

abbrev second_lease : Lease
second_lease = record lease { worker_id = "other"; generation = 2; expires_at = 31 }

abbrev at_enqueued : Store
at_enqueued = run hashes enqueued empty_store

reclaimed_lease_is_fenced_example :
    IsRefused lease
      (claim_attempt "a" "other" 10 21
        (run hashes given_up (claim_attempt "a" "worker" 10 3 at_enqueued).1)).1
unfolding run after get put remove strip create_world new_world is_valid_world is_hex_text
    enqueue_attempt get_world enqueue_in any_active admit_attempt claim_attempt take_lease
    mark_running reconcile_active_attempts sort_by requeue
reclaimed_lease_is_fenced_example =
    reclaimed_lease_is_fenced hashes "a" "worker" "other" 10 10 3 21 given_up at_enqueued lease
      second_lease refl refl refl

-- The attempt and its lease after a renewal.
abbrev running_attempt : Attempt
running_attempt = record attempt { status = AttemptStatus.running; started_at = some 3 }

abbrev at_renewed : Store
at_renewed = (renew_attempt lease 10 5 at_claimed).1

renewed_lease_cannot_fail_example :
    ((complete_attempt lease report 6 at_renewed).0
      ≡ ok (completed running_attempt report feedback 6))
    × (fail_attempt lease [] "broken" false 1 6 at_renewed
        ≡ (err (conflict "stale attempt lease"), at_renewed))
    × (release_attempt lease at_renewed ≡ at_renewed)
unfolding run after get put remove strip create_world new_world is_valid_world is_hex_text
    enqueue_attempt get_world enqueue_in any_active admit_attempt claim_attempt take_lease
    mark_running renew_attempt same_holder check_failure validate_feedback validate_duration
    check_report has_complete_pass_proof proofs_match are_fields_dumpable fields_bytes get_field
renewed_lease_cannot_fail_example =
    renewed_lease_cannot_fail lease (record lease { expires_at = 15 }) 10 5 at_claimed at_renewed
      running_attempt (record open_world { updated_at = 3 }) report feedback [] [] "broken" false 1
      6 refl (λ e. omega (arith, e)) refl refl refl refl refl refl refl refl

claimed_attempt_can_pass_example :
    (l : Lease) × (b : Attempt) × ((claim_attempt "a" "worker" 10 3 at_enqueued).0 ≡ ok (some l))
    × ((complete_attempt l report 7 (claim_attempt "a" "worker" 10 3 at_enqueued).1).0 ≡ ok b)
    × (b.status ≡ AttemptStatus.passed)
    × (get "a"
          (complete_attempt l report 7 (claim_attempt "a" "worker" 10 3 at_enqueued).1).1.attempts
        ≡ some b)
    × (get "w"
          (complete_attempt l report 7 (claim_attempt "a" "worker" 10 3 at_enqueued).1).1.worlds
        ≡ some (record open_world { status = WorldStatus.passed; updated_at = 7 }))
unfolding run after get put remove strip create_world new_world is_valid_world is_hex_text
    enqueue_attempt get_world enqueue_in any_active admit_attempt claim_attempt take_lease
    mark_running complete_attempt check_report validate_feedback validate_duration held_attempt
    complete_held finish completed has_complete_pass_proof proofs_match are_fields_dumpable
    fields_bytes same_holder get_field
claimed_attempt_can_pass_example =
    claimed_attempt_can_pass "a" "worker" 10 3 7 at_enqueued attempt open_world report feedback
      (run-IsSound hashes enqueued empty_store enqueued-IsFreshRun empty-IsSound).keyed refl refl
      refl refl refl refl refl refl refl refl refl
