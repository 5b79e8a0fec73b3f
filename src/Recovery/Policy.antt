-- ===== src/Recovery/Policy.antt =====
-- core/lil_tweak/failure_recovery/policy.py: the narrowest allowed recovery action, within budgets.
pub mod Safety
use lil_tweak.Prelude.{
  ℕ, Bool, true, false, not, ◌&&◌, ◌||◌, String, Option, some, none, List, [], ◌∷◌, leb, nat_eq,
  length, select, last?, if◌then◌else◌, ◌==◌, string_Eq,
}
use lil_tweak.Recovery.Vocabulary.{
  FailureCode, rollback_failed, recovery_evidence_invalid, security_check_failure,
  RecoveryDisposition, rollback_required, approval_required, non_recoverable, RecoveryAction,
  retry_step, replan, repair_candidate, rollback, reroute_resource, requalify_resource, escalate,
  block, RecoveryOutcomeStatus, is_stop, is_failed, same_action,
}
use lil_tweak.Recovery.Contracts.{
  FailureSignal, RecoveryContext, RecoveryBudgets, ResourceRecoveryDecision, ClassifiedFailure,
  RecoveryHistoryEntry, limit_for,
}

pub record PolicyDecision : Type 0 where
  pub disposition : RecoveryDisposition
  pub action : RecoveryAction
  pub allowed : Bool
  pub requires_reauthorization : Bool
  pub requires_fresh_lease : Bool
  pub reason_codes : List String

-- `action in self._APPROVAL_REQUIRED_ACTIONS`
abbrev pub needs_approval : RecoveryAction → Bool
needs_approval repair_candidate = true
needs_approval rollback = true
needs_approval reroute_resource = true
needs_approval requalify_resource = true
needs_approval _ = false

-- `_blocked` with its default disposition and action.
unfoldable pub blocked : String → PolicyDecision
blocked reason = record {
  disposition = non_recoverable;
  action = block;
  allowed = false;
  requires_reauthorization = false;
  requires_fresh_lease = false;
  reason_codes = reason ∷ [];
}

-- `_blocked` as the approval gates call it.
unfoldable pub blocked_for_approval : String → PolicyDecision
unfolding blocked
blocked_for_approval reason = record (blocked reason) {
  disposition = approval_required;
  action = escalate;
  requires_reauthorization = true;
}

-- `_validate_resource`: the reason to refuse the resource, or nothing.
unfoldable pub validate_resource : Option ResourceRecoveryDecision → Option String → Option String
validate_resource none current = some "alternate_resource_unavailable"
validate_resource (some r) current =
    if elim current [ none ↦ false | some c ↦ r.resource_id == c ]
    then some "alternate_resource_not_distinct"
    else if not r.qualified
    then some "alternate_resource_not_qualified"
    else if not r.healthy
    then some "alternate_resource_unhealthy"
    else if not r.authorized
    then some "alternate_resource_unauthorized"
    else if not r.cost_approved
    then some "alternate_resource_cost_not_approved"
    else if not r.fresh_lease
    then some "alternate_resource_lease_not_fresh"
    else if not r.source_bound
    then some "alternate_resource_source_mismatch"
    else none

unfoldable pub budget_reason : RecoveryAction → String
budget_reason retry_step = "node_retry_budget_exhausted"
budget_reason replan = "mission_replan_budget_exhausted"
budget_reason repair_candidate = "candidate_repair_budget_exhausted"
budget_reason reroute_resource = "resource_reroute_budget_exhausted"
budget_reason requalify_resource = "resource_requalification_budget_exhausted"
budget_reason rollback = "rollback_budget_exhausted"
budget_reason escalate = "approval_required"
budget_reason block = "recovery_blocked"

abbrev keeps_code : FailureCode → Bool
keeps_code rollback_failed = true
keeps_code recovery_evidence_invalid = true
keeps_code security_check_failure = true
keeps_code _ = false

-- The first `base`, as classified.
unfoldable pub classified_base : ClassifiedFailure → PolicyDecision
classified_base c = record {
  disposition = c.disposition;
  action = c.preferred_action;
  allowed = not (is_stop c.preferred_action);
  requires_reauthorization = c.requires_reauthorization;
  requires_fresh_lease = c.requires_fresh_lease;
  reason_codes = c.reason_codes;
}

-- `base` after the rule on partial mutations.
unfoldable pub base_decision : ClassifiedFailure → FailureSignal → PolicyDecision
unfolding classified_base
base_decision c signal =
    if signal.partial_mutation
      && not (
          c.automatic_recovery_prohibited
          || c.requires_reauthorization
          || is_stop c.preferred_action
          || keeps_code c.code)
    then record {
      disposition = rollback_required;
      action = rollback;
      allowed = true;
      requires_reauthorization = false;
      requires_fresh_lease = false;
      reason_codes = "partial_mutation_requires_rollback" ∷ [];
    }
    else classified_base c

-- `entry.outcome_status is None`
abbrev pub is_decision : RecoveryHistoryEntry → Bool
is_decision entry = elim entry.outcome_status [ none ↦ true | some _ ↦ false ]

-- an entry of `fingerprint_decisions`
abbrev pub decided_fingerprint : String → RecoveryHistoryEntry → Bool
decided_fingerprint fingerprint entry = entry.fingerprint == fingerprint && is_decision entry

-- an entry of `fingerprint_outcomes`
abbrev pub had_outcome : String → RecoveryHistoryEntry → Bool
had_outcome fingerprint entry = entry.fingerprint == fingerprint && not (is_decision entry)

-- `mission_decisions` with this action
abbrev pub decided_action : String → RecoveryAction → RecoveryHistoryEntry → Bool
decided_action task action entry =
    entry.task_id == task && is_decision entry && same_action entry.action action

-- an entry of `prior_same_action`: a retry counts for its node, all else for the mission
unfoldable pub prior_same_action : RecoveryContext → RecoveryAction → RecoveryHistoryEntry → Bool
prior_same_action context retry_step entry =
    entry.node_id == context.node_id && decided_action context.task_id retry_step entry
prior_same_action context action entry = decided_action context.task_id action entry

-- The latest outcome of this failure says that the same action failed and brought nothing.
unfoldable pub made_no_progress : RecoveryAction → Option RecoveryHistoryEntry → Bool
made_no_progress action none = false
made_no_progress action (some latest) =
    same_action latest.action action
    && is_failed latest.outcome_status
    && elim latest.progress [ none ↦ false | some p ↦ not p ]

-- The part of `decide` from `if base.action in {BLOCK, ESCALATE}` on.
unfoldable pub within_budgets :
    PolicyDecision
    → RecoveryContext
    → List RecoveryHistoryEntry
    → RecoveryBudgets
    → String
    → PolicyDecision
unfolding blocked limit_for
within_budgets base context history budgets fingerprint =
    if is_stop base.action
    then base
    else if made_no_progress base.action (last? (select (had_outcome fingerprint) history))
    then blocked "recovery_strategy_no_progress"
    else if leb budgets.max_fingerprint_retries
        (length (select (decided_fingerprint fingerprint) history))
    then blocked "fingerprint_retry_budget_exhausted"
    else if nat_eq (limit_for budgets base.action) 0
        || leb (limit_for budgets base.action)
            (length (select (prior_same_action context base.action) history))
    then blocked (budget_reason base.action)
    else base

abbrev pub is_reroute : RecoveryAction → Bool
is_reroute reroute_resource = true
is_reroute _ = false

unfoldable pub policy_decide :
    ClassifiedFailure
    → FailureSignal
    → RecoveryContext
    → List RecoveryHistoryEntry
    → RecoveryBudgets
    → String
    → Option ResourceRecoveryDecision
    → PolicyDecision
unfolding base_decision blocked blocked_for_approval validate_resource
policy_decide classified signal context history budgets fingerprint resource =
    let base = base_decision classified signal in
    if context.new_authority_required
    then blocked_for_approval "new_authority_requires_approval"
    else if not context.approval_present && needs_approval base.action
    then blocked_for_approval "missing_required_approval"
    else if is_reroute base.action
    then elim (validate_resource resource context.resource_id) [
      | some reason ↦ record (blocked reason) { requires_fresh_lease = true }
      | none ↦
          within_budgets (record base { requires_fresh_lease = true }) context history budgets
            fingerprint
    ]
    else within_budgets base context history budgets fingerprint
