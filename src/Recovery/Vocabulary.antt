-- ===== src/Recovery/Vocabulary.antt =====
-- The vocabulary of core/lil_tweak/failure_recovery/contracts.py: its enumerations, with the texts
-- that stand for them.
use lil_tweak.Prelude.{
  Bool, true, false, String, Option, some, List, [], ◌∷◌, find, ◌==◌, string_Eq, Eq, ◌≡◌, ◌↔◌,
  arith,
}

pub data FailureClass : Type 0 where
  input_contract planning repository_context execution verification : FailureClass
  infrastructure_provider recovery unknown : FailureClass

pub data FailureCode : Type 0 where
  invalid_request missing_contract conflicting_contract : FailureCode
  stale_contract missing_approval stale_approval : FailureCode
  wrong_digest_binding plan_incomplete plan_invalid : FailureCode
  plan_contract_violation plan_scope_excessive plan_critic_failure : FailureCode
  stale_source source_changed repository_unavailable : FailureCode
  mapper_incomplete dependency_uncertain repository_integrity_failure : FailureCode
  command_failed timeout process_crash : FailureCode
  resource_exhaustion sandbox_failure runner_unavailable : FailureCode
  runner_unqualified lease_rejected lease_expired : FailureCode
  lease_replayed cancellation cleanup_failure : FailureCode
  test_failure lint_failure format_failure : FailureCode
  typecheck_failure build_failure security_check_failure : FailureCode
  deterministic_verification_failure independent_verification_failure false_completion_claim :
      FailureCode
  provider_unhealthy provider_timeout provider_capacity_exhausted : FailureCode
  provider_cost_gate provider_auth_failure control_plane_failure : FailureCode
  rollback_failed repair_repeated repair_budget_exhausted : FailureCode
  recovery_evidence_invalid recovery_strategy_invalid recovery_strategy_no_progress : FailureCode
  unknown_failure : FailureCode

-- `code.value`
unfoldable pub code_value : FailureCode → String
code_value invalid_request = "invalid_request"
code_value missing_contract = "missing_contract"
code_value conflicting_contract = "conflicting_contract"
code_value stale_contract = "stale_contract"
code_value missing_approval = "missing_approval"
code_value stale_approval = "stale_approval"
code_value wrong_digest_binding = "wrong_digest_binding"
code_value plan_incomplete = "plan_incomplete"
code_value plan_invalid = "plan_invalid"
code_value plan_contract_violation = "plan_contract_violation"
code_value plan_scope_excessive = "plan_scope_excessive"
code_value plan_critic_failure = "plan_critic_failure"
code_value stale_source = "stale_source"
code_value source_changed = "source_changed"
code_value repository_unavailable = "repository_unavailable"
code_value mapper_incomplete = "mapper_incomplete"
code_value dependency_uncertain = "dependency_uncertain"
code_value repository_integrity_failure = "repository_integrity_failure"
code_value command_failed = "command_failed"
code_value timeout = "timeout"
code_value process_crash = "process_crash"
code_value resource_exhaustion = "resource_exhaustion"
code_value sandbox_failure = "sandbox_failure"
code_value runner_unavailable = "runner_unavailable"
code_value runner_unqualified = "runner_unqualified"
code_value lease_rejected = "lease_rejected"
code_value lease_expired = "lease_expired"
code_value lease_replayed = "lease_replayed"
code_value cancellation = "cancellation"
code_value cleanup_failure = "cleanup_failure"
code_value test_failure = "test_failure"
code_value lint_failure = "lint_failure"
code_value format_failure = "format_failure"
code_value typecheck_failure = "typecheck_failure"
code_value build_failure = "build_failure"
code_value security_check_failure = "security_check_failure"
code_value deterministic_verification_failure = "deterministic_verification_failure"
code_value independent_verification_failure = "independent_verification_failure"
code_value false_completion_claim = "false_completion_claim"
code_value provider_unhealthy = "provider_unhealthy"
code_value provider_timeout = "provider_timeout"
code_value provider_capacity_exhausted = "provider_capacity_exhausted"
code_value provider_cost_gate = "provider_cost_gate"
code_value provider_auth_failure = "provider_auth_failure"
code_value control_plane_failure = "control_plane_failure"
code_value rollback_failed = "rollback_failed"
code_value repair_repeated = "repair_repeated"
code_value repair_budget_exhausted = "repair_budget_exhausted"
code_value recovery_evidence_invalid = "recovery_evidence_invalid"
code_value recovery_strategy_invalid = "recovery_strategy_invalid"
code_value recovery_strategy_no_progress = "recovery_strategy_no_progress"
code_value unknown_failure = "unknown_failure"

-- `list(FailureCode)`
abbrev pub all_codes : List FailureCode
all_codes =
    invalid_request ∷ missing_contract ∷ conflicting_contract ∷ stale_contract ∷ missing_approval
    ∷ stale_approval ∷ wrong_digest_binding ∷ plan_incomplete ∷ plan_invalid
    ∷ plan_contract_violation ∷ plan_scope_excessive ∷ plan_critic_failure ∷ stale_source
    ∷ source_changed ∷ repository_unavailable ∷ mapper_incomplete ∷ dependency_uncertain
    ∷ repository_integrity_failure ∷ command_failed ∷ timeout ∷ process_crash ∷ resource_exhaustion
    ∷ sandbox_failure ∷ runner_unavailable ∷ runner_unqualified ∷ lease_rejected ∷ lease_expired
    ∷ lease_replayed ∷ cancellation ∷ cleanup_failure ∷ test_failure ∷ lint_failure ∷ format_failure
    ∷ typecheck_failure ∷ build_failure ∷ security_check_failure
    ∷ deterministic_verification_failure ∷ independent_verification_failure ∷ false_completion_claim
    ∷ provider_unhealthy ∷ provider_timeout ∷ provider_capacity_exhausted ∷ provider_cost_gate
    ∷ provider_auth_failure ∷ control_plane_failure ∷ rollback_failed ∷ repair_repeated
    ∷ repair_budget_exhausted ∷ recovery_evidence_invalid ∷ recovery_strategy_invalid
    ∷ recovery_strategy_no_progress ∷ unknown_failure ∷ []

-- `FailureCode(raw)`, with `none` for its `ValueError`.
unfoldable pub parse_code : String → Option FailureCode
unfolding code_value
parse_code raw = find (λ c. code_value c == raw) all_codes

pub data RecoveryDisposition : Type 0 where
  retryable replan_required rollback_required resource_reroute_allowed : RecoveryDisposition
  approval_required human_escalation_required non_recoverable : RecoveryDisposition

pub data RecoveryAction : Type 0 where
  retry_step replan repair_candidate rollback : RecoveryAction
  reroute_resource requalify_resource escalate block : RecoveryAction

pub data RecoveryOutcomeStatus : Type 0 where
  pending succeeded failed blocked : RecoveryOutcomeStatus

-- `a is b`, for actions.
abbrev pub same_action : RecoveryAction → RecoveryAction → Bool
same_action retry_step retry_step = true
same_action replan replan = true
same_action repair_candidate repair_candidate = true
same_action rollback rollback = true
same_action reroute_resource reroute_resource = true
same_action requalify_resource requalify_resource = true
same_action escalate escalate = true
same_action block block = true
same_action _ _ = false

pub same_action_iff : (a b : RecoveryAction) → (same_action a b ≡ true) ↔ (a ≡ b)
same_action_iff a b = ground arith

instance abbrev pub action_Eq : Eq RecoveryAction
action_Eq = record { agree = same_action; agree_iff = same_action_iff }

-- `action in {BLOCK, ESCALATE}`
abbrev pub is_stop : RecoveryAction → Bool
is_stop block = true
is_stop escalate = true
is_stop _ = false

-- `status is FAILED`, for an optional status.
abbrev pub is_failed : Option RecoveryOutcomeStatus → Bool
is_failed (some failed) = true
is_failed _ = false

abbrev pub is_succeeded : RecoveryOutcomeStatus → Bool
is_succeeded succeeded = true
is_succeeded _ = false
