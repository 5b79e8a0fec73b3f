-- ===== src/Recovery/Classifier/Classes.antt =====
-- The sets of failure codes of classifier.py, and the class of a code.
use lil_tweak.Prelude.{Bool, true, false, if◌then◌else◌}
use lil_tweak.Recovery.Vocabulary.{
  FailureClass, input_contract, planning, repository_context, execution, verification,
  infrastructure_provider, recovery, unknown, FailureCode, invalid_request, missing_contract,
  conflicting_contract, stale_contract, missing_approval, stale_approval, wrong_digest_binding,
  plan_incomplete, plan_invalid, plan_contract_violation, plan_scope_excessive, plan_critic_failure,
  stale_source, source_changed, repository_unavailable, mapper_incomplete, dependency_uncertain,
  repository_integrity_failure, command_failed, timeout, process_crash, resource_exhaustion,
  sandbox_failure, runner_unavailable, runner_unqualified, lease_rejected, lease_expired,
  lease_replayed, cancellation, cleanup_failure, test_failure, lint_failure, format_failure,
  typecheck_failure, build_failure, security_check_failure, deterministic_verification_failure,
  independent_verification_failure, false_completion_claim, provider_unhealthy, provider_timeout,
  provider_capacity_exhausted, provider_cost_gate, provider_auth_failure, control_plane_failure,
  rollback_failed, repair_repeated, repair_budget_exhausted, recovery_evidence_invalid,
  recovery_strategy_invalid, recovery_strategy_no_progress,
}

-- `code in _INPUT_CONTRACT`
abbrev in_input_contract : FailureCode → Bool
in_input_contract invalid_request = true
in_input_contract missing_contract = true
in_input_contract conflicting_contract = true
in_input_contract stale_contract = true
in_input_contract missing_approval = true
in_input_contract stale_approval = true
in_input_contract wrong_digest_binding = true
in_input_contract _ = false

-- `code in _PLANNING`
abbrev pub in_planning : FailureCode → Bool
in_planning plan_incomplete = true
in_planning plan_invalid = true
in_planning plan_contract_violation = true
in_planning plan_scope_excessive = true
in_planning plan_critic_failure = true
in_planning _ = false

-- `code in _REPOSITORY`
abbrev in_repository : FailureCode → Bool
in_repository stale_source = true
in_repository source_changed = true
in_repository repository_unavailable = true
in_repository mapper_incomplete = true
in_repository dependency_uncertain = true
in_repository repository_integrity_failure = true
in_repository _ = false

-- `code in _EXECUTION`
abbrev in_execution : FailureCode → Bool
in_execution command_failed = true
in_execution timeout = true
in_execution process_crash = true
in_execution resource_exhaustion = true
in_execution sandbox_failure = true
in_execution runner_unavailable = true
in_execution runner_unqualified = true
in_execution lease_rejected = true
in_execution lease_expired = true
in_execution lease_replayed = true
in_execution cancellation = true
in_execution cleanup_failure = true
in_execution _ = false

-- `code in _VERIFICATION`
abbrev in_verification : FailureCode → Bool
in_verification test_failure = true
in_verification lint_failure = true
in_verification format_failure = true
in_verification typecheck_failure = true
in_verification build_failure = true
in_verification security_check_failure = true
in_verification deterministic_verification_failure = true
in_verification independent_verification_failure = true
in_verification false_completion_claim = true
in_verification _ = false

-- `code in _INFRASTRUCTURE`
abbrev in_infrastructure : FailureCode → Bool
in_infrastructure provider_unhealthy = true
in_infrastructure provider_timeout = true
in_infrastructure provider_capacity_exhausted = true
in_infrastructure provider_cost_gate = true
in_infrastructure provider_auth_failure = true
in_infrastructure control_plane_failure = true
in_infrastructure _ = false

-- `code in _RECOVERY`
abbrev in_recovery : FailureCode → Bool
in_recovery rollback_failed = true
in_recovery repair_repeated = true
in_recovery repair_budget_exhausted = true
in_recovery recovery_evidence_invalid = true
in_recovery recovery_strategy_invalid = true
in_recovery recovery_strategy_no_progress = true
in_recovery _ = false

unfoldable pub failure_class_of : FailureCode → FailureClass
failure_class_of code =
    if in_input_contract code
    then input_contract
    else if in_planning code
    then planning
    else if in_repository code
    then repository_context
    else if in_execution code
    then execution
    else if in_verification code
    then verification
    else if in_infrastructure code
    then infrastructure_provider
    else if in_recovery code
    then recovery
    else unknown
