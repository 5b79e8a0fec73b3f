-- ===== src/Recovery/Classifier/Codes.antt =====
-- The codes that the branches of `classify_failure` in classifier.py test for.
use lil_tweak.Prelude.{Bool, true, false}
use lil_tweak.Recovery.Vocabulary.{
  FailureCode, conflicting_contract, stale_contract, missing_approval, stale_approval,
  wrong_digest_binding, plan_contract_violation, stale_source, source_changed,
  repository_unavailable, mapper_incomplete, dependency_uncertain, repository_integrity_failure,
  command_failed, timeout, process_crash, resource_exhaustion, sandbox_failure, runner_unavailable,
  runner_unqualified, lease_rejected, lease_expired, lease_replayed, cancellation, cleanup_failure,
  test_failure, lint_failure, format_failure, typecheck_failure, build_failure,
  security_check_failure, deterministic_verification_failure, independent_verification_failure,
  false_completion_claim, provider_unhealthy, provider_timeout, provider_capacity_exhausted,
  provider_cost_gate, provider_auth_failure, control_plane_failure, rollback_failed,
  repair_repeated, repair_budget_exhausted, recovery_evidence_invalid, recovery_strategy_invalid,
  recovery_strategy_no_progress,
}

-- codes of a broken repository or broken evidence
abbrev pub is_integrity : FailureCode → Bool
is_integrity repository_integrity_failure = true
is_integrity recovery_evidence_invalid = true
is_integrity _ = false

-- codes of a security matter
abbrev pub is_security : FailureCode → Bool
is_security security_check_failure = true
is_security false_completion_claim = true
is_security lease_replayed = true
is_security provider_auth_failure = true
is_security _ = false

-- codes of a finished or repeated recovery
abbrev pub is_exhausted : FailureCode → Bool
is_exhausted cancellation = true
is_exhausted rollback_failed = true
is_exhausted repair_budget_exhausted = true
is_exhausted repair_repeated = true
is_exhausted recovery_strategy_invalid = true
is_exhausted recovery_strategy_no_progress = true
is_exhausted _ = false

-- codes of a missing approval
abbrev pub is_stale_approval : FailureCode → Bool
is_stale_approval missing_approval = true
is_stale_approval stale_approval = true
is_stale_approval _ = false

-- codes of a moved source or contract
abbrev pub is_stale_source : FailureCode → Bool
is_stale_source stale_source = true
is_stale_source source_changed = true
is_stale_source stale_contract = true
is_stale_source conflicting_contract = true
is_stale_source plan_contract_violation = true
is_stale_source _ = false

-- codes of an incomplete map
abbrev pub is_mapping : FailureCode → Bool
is_mapping mapper_incomplete = true
is_mapping dependency_uncertain = true
is_mapping _ = false

-- codes of a failed check of the candidate
abbrev pub is_verification : FailureCode → Bool
is_verification test_failure = true
is_verification lint_failure = true
is_verification format_failure = true
is_verification typecheck_failure = true
is_verification build_failure = true
is_verification deterministic_verification_failure = true
is_verification independent_verification_failure = true
is_verification command_failed = true
is_verification _ = false

-- codes of a runner that is not qualified
abbrev pub is_unqualified : FailureCode → Bool
is_unqualified runner_unqualified = true
is_unqualified _ = false

-- codes of a resource that is not there
abbrev pub is_unavailable : FailureCode → Bool
is_unavailable runner_unavailable = true
is_unavailable provider_unhealthy = true
is_unavailable provider_timeout = true
is_unavailable provider_capacity_exhausted = true
is_unavailable resource_exhaustion = true
is_unavailable control_plane_failure = true
is_unavailable _ = false

-- codes of a cost gate
abbrev pub is_cost_gate : FailureCode → Bool
is_cost_gate provider_cost_gate = true
is_cost_gate _ = false

-- codes of a lease that is gone
abbrev pub is_lease : FailureCode → Bool
is_lease lease_expired = true
is_lease lease_rejected = true
is_lease _ = false

-- codes of a step that may pass when repeated
abbrev pub is_step_failure : FailureCode → Bool
is_step_failure timeout = true
is_step_failure process_crash = true
is_step_failure sandbox_failure = true
is_step_failure repository_unavailable = true
is_step_failure _ = false

abbrev pub is_wrong_digest : FailureCode → Bool
is_wrong_digest wrong_digest_binding = true
is_wrong_digest _ = false

abbrev pub is_cleanup : FailureCode → Bool
is_cleanup cleanup_failure = true
is_cleanup _ = false
