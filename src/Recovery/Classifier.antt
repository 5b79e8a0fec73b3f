-- ===== src/Recovery/Classifier.antt =====
-- core/lil_tweak/failure_recovery/classifier.py: one conservative disposition for each failure.
mod Classes
mod Codes
pub mod Blocks
use Classes.{in_planning}
pub use Classes.{failure_class_of}
use Codes.{
  is_integrity, is_security, is_exhausted, is_stale_approval, is_stale_source, is_mapping,
  is_verification, is_unqualified, is_unavailable, is_cost_gate, is_lease, is_step_failure,
  is_wrong_digest, is_cleanup,
}
use lil_tweak.Prelude.{Bool, true, false, ◌||◌, ◌&&◌, String, List, [], ◌∷◌, if◌then◌else◌}
use lil_tweak.Recovery.Vocabulary.{
  FailureClass, input_contract, planning, repository_context, execution, verification,
  infrastructure_provider, recovery, unknown, FailureCode, invalid_request, missing_contract,
  conflicting_contract, stale_contract, missing_approval, stale_approval, wrong_digest_binding,
  plan_incomplete, plan_invalid, plan_contract_violation, plan_scope_excessive, plan_critic_failure,
  stale_source, source_changed, repository_unavailable, mapper_incomplete, dependency_uncertain,
  repository_integrity_failure, command_failed, timeout, process_crash, resource_exhaustion,
  sandbox_failure, runner_unavailable, runner_unqualified, lease_rejected, lease_expired,
  lease_replayed, cancellation, cleanup_failure, test_failure, lint_failure, format_failure,
  typecheck_failure, build_failure, security_check_failure, deterministic_verification_failure,
  independent_verification_failure, false_completion_claim, provider_unhealthy, provider_timeout,
  provider_capacity_exhausted, provider_cost_gate, provider_auth_failure, control_plane_failure,
  rollback_failed, repair_repeated, repair_budget_exhausted, recovery_evidence_invalid,
  recovery_strategy_invalid, recovery_strategy_no_progress, unknown_failure, code_value,
  RecoveryDisposition, retryable, replan_required, rollback_required, resource_reroute_allowed,
  approval_required, human_escalation_required, non_recoverable, RecoveryAction, retry_step, replan,
  repair_candidate, rollback, reroute_resource, requalify_resource, escalate, block,
}
use lil_tweak.Recovery.Contracts.{ClassifiedFailure, FailureSignal, SignalCode, known, other}

-- A `ClassifiedFailure` with its flags left at their defaults.
abbrev plain :
    FailureClass → FailureCode → RecoveryDisposition → RecoveryAction → String → ClassifiedFailure
plain class code disposition action reason = record {
  failure_class = class;
  code = code;
  disposition = disposition;
  preferred_action = action;
  reason_codes = reason ∷ [];
  automatic_recovery_prohibited = false;
  requires_reauthorization = false;
  requires_fresh_lease = false;
}

unfoldable pub classified_block : FailureClass → FailureCode → String → ClassifiedFailure
classified_block class code reason = record (plain class code non_recoverable block reason) {
  automatic_recovery_prohibited = true;
}

unfoldable pub classified_unknown : ClassifiedFailure
unfolding code_value
classified_unknown =
    record (plain unknown unknown_failure non_recoverable block (code_value unknown_failure)) {
      automatic_recovery_prohibited = true;
    }

-- The chain of tests from `code in _PLANNING` on, for the kinds of failure that may be repaired.
unfoldable pub classify_repair : FailureClass → FailureCode → Bool → ClassifiedFailure
unfolding classified_block
classify_repair class code transient =
    let value = code_value code in
    if in_planning code || is_mapping code
    then plain class code replan_required replan value
    else if is_verification code
    then plain class code replan_required repair_candidate value
    else if is_unqualified code
    then record (plain class code resource_reroute_allowed requalify_resource value) {
      requires_fresh_lease = true;
    }
    else if is_unavailable code
    then record (plain class code resource_reroute_allowed reroute_resource value) {
      requires_fresh_lease = true;
    }
    else if is_cost_gate code
    then record (plain class code approval_required escalate value) {
      requires_reauthorization = true;
    }
    else if is_lease code
    then record (plain class code non_recoverable block value) {
      automatic_recovery_prohibited = true;
      requires_fresh_lease = true;
    }
    else if is_step_failure code && transient
    then plain class code retryable retry_step value
    else if is_cleanup code
    then plain class code rollback_required rollback value
    else classified_block class code value

unfoldable pub classify_code : FailureCode → FailureSignal → ClassifiedFailure
unfolding classified_block classify_repair failure_class_of
classify_code code signal =
    let class = failure_class_of code in
    let value = code_value code in
    if signal.integrity_failure || is_integrity code
    then classified_block class code "integrity_failure"
    else if signal.security_sensitive || is_security code
    then classified_block class code value
    else if is_exhausted code
    then classified_block class code value
    else if is_wrong_digest code
    then record (plain class code non_recoverable block value) {
      automatic_recovery_prohibited = true;
      requires_reauthorization = true;
    }
    else if is_stale_approval code
    then record (plain class code approval_required escalate value) {
      requires_reauthorization = true;
    }
    else if is_stale_source code
    then record (plain class code human_escalation_required escalate value) {
      requires_reauthorization = true;
    }
    else classify_repair class code signal.transient

-- A code that is a bare text stands for no known failure.
unfoldable pub dispatch_code : SignalCode → FailureSignal → ClassifiedFailure
unfolding classify_code classified_unknown
dispatch_code (known code) signal = classify_code code signal
dispatch_code (other raw) signal = classified_unknown

unfoldable pub classify : FailureSignal → ClassifiedFailure
unfolding dispatch_code
classify signal = dispatch_code signal.code signal
