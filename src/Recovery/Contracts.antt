-- ===== src/Recovery/Contracts.antt =====
-- The records of core/lil_tweak/failure_recovery/contracts.py, and the checks that their
-- `__post_init__` makes. Checks of a value's Python type have no counterpart: the fields are typed.
mod Strings
mod Checks
mod Outcomes
unfoldable pub use Strings.{sort_unique, normalize_strings}
unfoldable pub use Checks.{
  schema_version, Checked, is_id, is_reason, is_revision, require_id, require_optional_id,
  require_digest, require_revision,
}
pub use Outcomes.{RecoveryOutcome, RecoveryHistoryEntry}
unfoldable pub use Outcomes.{check_outcome, check_entry}
use lil_tweak.Prelude.{
  ℕ, Bool, true, false, not, ◌&&◌, ◌||◌, String, Option, some, none, List, [], ◌∷◌, ltb, leb,
  nat_eq, any, all, length, if◌then◌else◌, ◌==◌, string_Eq, option_Eq, Result, ok, err, ◌>>=◌, ◌>>◌,
  guard,
}
use lil_tweak.Prelude.Text.{utf8_len, codes, is_blank, is_hex_text, is_lower, is_upper, is_digit}
use lil_tweak.Recovery.Vocabulary.{
  FailureClass, FailureCode, RecoveryDisposition, RecoveryAction, retry_step, replan,
  repair_candidate, rollback, reroute_resource, requalify_resource, escalate, block,
  RecoveryOutcomeStatus, is_stop, is_succeeded, same_action,
}

pub record EvidenceRef : Type 0 where
  pub evidence_id : String
  pub kind : String
  pub sha256 : String

unfoldable pub check_evidence : EvidenceRef → Checked EvidenceRef
check_evidence r = do
  require_id r.evidence_id "evidence_id_invalid"
  require_id r.kind "evidence_kind_invalid"
  require_digest (some r.sha256) "evidence_digest_invalid"
  ok r

pub record RecoveryContext : Type 0 where
  pub owner_id : String
  pub task_id : String
  pub dag_run_id : String
  pub node_id : String
  pub source_revision : Option String
  pub attempt : ℕ
  pub plan_digest : Option String
  pub candidate_digest : Option String
  pub contract_digest : Option String
  pub execution_id : Option String
  pub lease_id : Option String
  pub resource_id : Option String
  pub approval_present : Bool
  pub new_authority_required : Bool

unfoldable pub check_context : RecoveryContext → Checked RecoveryContext
check_context c = do
  require_id c.owner_id "owner_id_invalid"
  require_id c.task_id "task_id_invalid"
  require_id c.dag_run_id "dag_run_id_invalid"
  require_id c.node_id "node_id_invalid"
  require_revision c.source_revision
  guard (leb 1 c.attempt) "attempt_must_be_positive"
  require_digest c.plan_digest "plan_digest_invalid"
  require_digest c.candidate_digest "candidate_digest_invalid"
  require_digest c.contract_digest "contract_digest_invalid"
  require_optional_id c.execution_id "execution_id_invalid"
  require_optional_id c.lease_id "lease_id_invalid"
  require_optional_id c.resource_id "resource_id_invalid"
  ok c

-- `FailureCode | str`
pub data SignalCode : Type 0 where
  known : FailureCode → SignalCode
  other : String → SignalCode

-- `details` is left out: nothing of the package reads it.
pub record FailureSignal : Type 0 where
  pub code : SignalCode
  pub exception_type : String
  pub message : String
  pub failed_checks : List String
  pub evidence : List EvidenceRef
  pub transient : Bool
  pub partial_mutation : Bool
  pub integrity_failure : Bool
  pub security_sensitive : Bool

pub record RecoveryBudgets : Type 0 where
  pub max_node_retries : ℕ
  pub max_fingerprint_retries : ℕ
  pub max_full_replans : ℕ
  pub max_candidate_repairs : ℕ
  pub max_resource_reroutes : ℕ
  pub max_rollbacks : ℕ

abbrev pub default_budgets : RecoveryBudgets
default_budgets = record {
  max_node_retries = 2;
  max_fingerprint_retries = 1;
  max_full_replans = 2;
  max_candidate_repairs = 2;
  max_resource_reroutes = 1;
  max_rollbacks = 1;
}

unfoldable pub check_budgets : RecoveryBudgets → Checked RecoveryBudgets
check_budgets b = do
  guard
      (leb b.max_node_retries 3
        && leb b.max_fingerprint_retries 2
        && leb b.max_full_replans 2
        && leb b.max_candidate_repairs 3
        && leb b.max_resource_reroutes 1
        && leb b.max_rollbacks 1)
      "recovery_budget_exceeds_hard_limit"
  ok b

unfoldable pub limit_for : RecoveryBudgets → RecoveryAction → ℕ
limit_for b retry_step = b.max_node_retries
limit_for b replan = b.max_full_replans
limit_for b repair_candidate = b.max_candidate_repairs
limit_for b reroute_resource = b.max_resource_reroutes
limit_for b rollback = b.max_rollbacks
limit_for b requalify_resource = b.max_resource_reroutes
limit_for b escalate = 0
limit_for b block = 0

pub record ResourceRecoveryDecision : Type 0 where
  pub resource_id : String
  pub qualified : Bool
  pub healthy : Bool
  pub authorized : Bool
  pub cost_approved : Bool
  pub fresh_lease : Bool
  pub source_bound : Bool

unfoldable pub check_resource : ResourceRecoveryDecision → Checked ResourceRecoveryDecision
unfolding require_id
check_resource r = do require_id r.resource_id "resource_id_invalid"; ok r

pub record ClassifiedFailure : Type 0 where
  pub failure_class : FailureClass
  pub code : FailureCode
  pub disposition : RecoveryDisposition
  pub preferred_action : RecoveryAction
  pub reason_codes : List String
  pub automatic_recovery_prohibited : Bool
  pub requires_reauthorization : Bool
  pub requires_fresh_lease : Bool

-- `not reason_codes or any(not _REASON.fullmatch(reason) ...)`, negated
unfoldable pub are_reasons : List String → Bool
unfolding is_reason
are_reasons [] = false
are_reasons (r ∷ rs) = is_reason r && all is_reason rs

unfoldable pub check_classified : ClassifiedFailure → Checked ClassifiedFailure
unfolding are_reasons
check_classified c = do
  guard (are_reasons c.reason_codes) "reason_codes_invalid"
  ok (record c { reason_codes = sort_unique c.reason_codes })

pub record RecoveryDecision : Type 0 where
  pub schema : String
  pub owner_id : String
  pub task_id : String
  pub dag_run_id : String
  pub node_id : String
  pub source_revision : Option String
  pub plan_digest : Option String
  pub candidate_digest : Option String
  pub contract_digest : Option String
  pub execution_id : Option String
  pub lease_id : Option String
  pub resource_id : Option String
  pub target_resource_id : Option String
  pub attempt : ℕ
  pub failure_class : FailureClass
  pub failure_code : FailureCode
  pub fingerprint : String
  pub disposition : RecoveryDisposition
  pub action : RecoveryAction
  pub allowed : Bool
  pub requires_reauthorization : Bool
  pub requires_fresh_lease : Bool
  pub reason_codes : List String
  pub decision_digest : String

-- The checks on the action and on the resource that a reroute goes to.
unfoldable pub check_target : RecoveryAction → Option String → Option String → Checked (Unit {0})
check_target reroute_resource resource none = err "reroute_target_required"
check_target reroute_resource resource (some target) =
    guard (not (resource == some target)) "reroute_target_must_be_distinct"
check_target _ resource none = ok tt
check_target _ resource (some target) = err "target_resource_only_valid_for_reroute"

unfoldable pub check_decision : RecoveryDecision → Checked RecoveryDecision
check_decision d = do
  guard (d.schema == schema_version) "recovery_schema_version_invalid"
  require_id d.owner_id "owner_id_invalid"
  require_id d.task_id "task_id_invalid"
  require_id d.dag_run_id "dag_run_id_invalid"
  require_id d.node_id "node_id_invalid"
  require_revision d.source_revision
  guard (leb 1 d.attempt) "attempt_must_be_positive"
  require_digest d.plan_digest "plan_digest_invalid"
  require_digest d.candidate_digest "candidate_digest_invalid"
  require_digest d.contract_digest "contract_digest_invalid"
  require_digest (some d.fingerprint) "failure_fingerprint_invalid"
  require_digest (some d.decision_digest) "decision_digest_invalid"
  require_optional_id d.execution_id "execution_id_invalid"
  require_optional_id d.lease_id "lease_id_invalid"
  require_optional_id d.resource_id "resource_id_invalid"
  require_optional_id d.target_resource_id "target_resource_id_invalid"
  guard (not (d.allowed && is_stop d.action)) "blocking_recovery_cannot_be_allowed"
  check_target d.action d.resource_id d.target_resource_id
  guard (are_reasons d.reason_codes) "reason_codes_invalid"
  ok (record d { reason_codes = sort_unique d.reason_codes })
