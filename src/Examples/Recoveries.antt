-- ===== src/Examples/Recoveries.antt =====
-- A failed test run of a mission, and what the recovery makes of it.
use lil_tweak.Prelude.{
  ◌⊎◌, ◌≤◌, ◌≡◌, refl, true, false, none, List, [], ◌∷◌, length, select, String, ok, err,
}
use lil_tweak.Prelude.Text.{is_hex_text}
use lil_tweak.Recovery.Vocabulary.{
  test_failure, verification, replan_required, failed, repair_candidate,
}
use lil_tweak.Recovery.Contracts.{
  RecoveryContext, known, FailureSignal, default_budgets, RecoveryDecision, RecoveryOutcome,
  RecoveryHistoryEntry,
}
use lil_tweak.Recovery.Fingerprints.{Digests}
use lil_tweak.Recovery.Classifier.{classify}
use lil_tweak.Recovery.Classifier.Blocks.{prohibited_never_allowed, sensitive_never_allowed}
use lil_tweak.Recovery.Policy.{policy_decide, within_budgets, made_no_progress}
use lil_tweak.Recovery.Policy.Safety.{IsJustified, decide-IsJustified}
use lil_tweak.Recovery.History.{History, entries_of}
use lil_tweak.Recovery.Controller.{decide_on_seen, normalize_progress}
use lil_tweak.Recovery.Controller.Counts.{IsWithin}
use lil_tweak.Recovery.Controller.Budgets.{Event, decide_on, after, budgets_hold}
use lil_tweak.Recovery.Controller.Outcomes.{outcome_with, one_outcome_each}
use lil_tweak.Recovery.Controller.Races.{IsLoose, late_decision_is_bounded}
use lil_tweak.Recovery.Controller.Progress.{Progress, progress_is_earned}

abbrev digest : String
digest = "0123456789abcdef0123456789abcdef0123456789abcdef0123456789abcdef"

abbrev digests : Digests
unfolding is_hex_text
digests = record {
  of_failure = λ _. digest;
  of_decision = λ _. digest;
  of_failure_hex = λ _. refl;
  of_decision_hex = λ _. refl;
}

abbrev context : RecoveryContext
context = record {
  owner_id = "owner";
  task_id = "task";
  dag_run_id = "run";
  node_id = "node";
  source_revision = none;
  attempt = 1;
  plan_digest = none;
  candidate_digest = none;
  contract_digest = none;
  execution_id = none;
  lease_id = none;
  resource_id = none;
  approval_present = true;
  new_authority_required = false;
}

abbrev signal : FailureSignal
signal = record {
  code = known test_failure;
  exception_type = "AssertionError";
  message = "two tests failed";
  failed_checks = "unit" ∷ "lint" ∷ [];
  evidence = [];
  transient = false;
  partial_mutation = false;
  integrity_failure = false;
  security_sensitive = false;
}

abbrev breach : FailureSignal
breach = record signal { integrity_failure = true }

abbrev events : List Event
events = decide_on signal context none ∷ decide_on signal context none ∷ []

budgets_hold_example :
    IsWithin default_budgets (entries_of "owner" (after digests default_budgets [] events))
budgets_hold_example = budgets_hold digests default_budgets events "owner"

one_outcome_each_example :
    length
      (select (outcome_with digest) (entries_of "owner" (after digests default_budgets [] events)))
    ≤ 1
one_outcome_each_example = one_outcome_each digests default_budgets events "owner" digest

decide-IsJustified_example :
    IsJustified (classify signal) signal context [] default_budgets digest none
unfolding classify policy_decide within_budgets made_no_progress
decide-IsJustified_example =
    decide-IsJustified (classify signal) signal context [] default_budgets digest none refl

prohibited_never_allowed_example :
    (policy_decide (classify breach) breach context [] default_budgets digest none).allowed ≡ false
unfolding classify
prohibited_never_allowed_example =
    prohibited_never_allowed breach context [] default_budgets digest none refl

sensitive_never_allowed_example :
    (policy_decide (classify breach) breach context [] default_budgets digest none).allowed ≡ false
sensitive_never_allowed_example =
    sensitive_never_allowed breach context [] default_budgets digest none refl

-- The decision to repair, its entry, and an outcome that failed but left one check less.
abbrev decision : RecoveryDecision
decision = record {
  schema = "failure-recovery-v1";
  owner_id = "owner";
  task_id = "task";
  dag_run_id = "run";
  node_id = "node";
  source_revision = none;
  plan_digest = none;
  candidate_digest = none;
  contract_digest = none;
  execution_id = none;
  lease_id = none;
  resource_id = none;
  target_resource_id = none;
  attempt = 1;
  failure_class = verification;
  failure_code = test_failure;
  fingerprint = digest;
  disposition = replan_required;
  action = repair_candidate;
  allowed = true;
  requires_reauthorization = false;
  requires_fresh_lease = false;
  reason_codes = "candidate_repair_required" ∷ [];
  decision_digest = digest;
}

abbrev issued : RecoveryHistoryEntry
issued = record {
  owner_id = "owner";
  sequence = 1;
  task_id = "task";
  fingerprint = digest;
  action = repair_candidate;
  decision_digest = digest;
  outcome_status = none;
  progress = none;
  remaining_failed_checks = "lint" ∷ "unit" ∷ [];
  resulting_plan_digest = none;
  resulting_candidate_digest = none;
  resulting_resource_id = none;
  node_id = "node";
  attempt = 1;
  target_resource_id = none;
}

abbrev outcome : RecoveryOutcome
outcome = record {
  status = failed;
  progress = false;
  remaining_failed_checks = "unit" ∷ [];
  resulting_plan_digest = none;
  resulting_candidate_digest = none;
  resulting_resource_id = none;
  independently_verified = false;
}

progress_is_earned_example :
    (Progress decision issued outcome
      × (normalize_progress decision issued outcome ≡ ok (record outcome { progress = true })))
    ⊎ (¬ Progress decision issued outcome
        × (((outcome.progress ≡ true)
              × (normalize_progress decision issued outcome ≡ err "unsupported_recovery_progress"))
            ⊎ ((outcome.progress ≡ false)
                × (normalize_progress decision issued outcome ≡ ok outcome))))
progress_is_earned_example = progress_is_earned decision issued outcome refl

-- Another decision, which was appended in between.
abbrev between : RecoveryHistoryEntry
between = record issued { attempt = 2 }

abbrev at_between : History
at_between = ("owner", between ∷ []) ∷ []

late_decision_is_bounded_example :
    IsLoose default_budgets (between ∷ []) (entries_of "owner" at_between) (
      entries_of "owner"
        (decide_on_seen digests default_budgets signal context none [] at_between).1)
unfolding entries_of
late_decision_is_bounded_example =
    late_decision_is_bounded digests default_budgets signal context none [] at_between
      (between ∷ []) refl
