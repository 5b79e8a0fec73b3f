-- ===== src/Recovery/Controller.antt =====
-- core/lil_tweak/failure_recovery/controller.py: decisions and outcomes, over the history.
pub mod Counts
pub mod Decisions
pub mod Budgets
pub mod Outcomes
pub mod Progress
pub mod Races
use lil_tweak.Prelude.{
  ℕ, Bool, true, false, not, ◌&&◌, ◌||◌, String, Option, some, none, List, [], ◌∷◌, any, all, find,
  leb, nat_eq, if◌then◌else◌, ◌==◌, string_Eq, option_Eq, Result, ok, err, ◌>>=◌, ◌>>◌, guard,
}
use lil_tweak.Recovery.Vocabulary.{RecoveryAction, reroute_resource, is_succeeded}
use lil_tweak.Recovery.Contracts.{
  schema_version, Checked, FailureSignal, RecoveryContext, RecoveryBudgets,
  ResourceRecoveryDecision, ClassifiedFailure, RecoveryDecision, RecoveryOutcome,
  RecoveryHistoryEntry, check_decision, sort_unique,
}
use lil_tweak.Recovery.Classifier.{classify}
use lil_tweak.Recovery.Fingerprints.{
  Digests, failure_fingerprint, failure_payload, material_from_decision,
}
use lil_tweak.Recovery.Policy.{PolicyDecision, policy_decide, is_reroute, is_decision}
use lil_tweak.Recovery.History.{
  History, entries_of, contains_decision, append_decision, append_outcome,
}

-- `target_resource_id` of `decide`
unfoldable pub target_of : PolicyDecision → Option ResourceRecoveryDecision → Option String
target_of p none = none
target_of p (some r) = if p.allowed && is_reroute p.action then some r.resource_id else none

-- A decision's fields but its digest, from the context, the classification and the policy.
unfoldable pub draft_decision :
    RecoveryContext
    → ClassifiedFailure
    → PolicyDecision
    → String
    → Option String
    → String
    → RecoveryDecision
draft_decision c classified p fingerprint target digest = record {
  schema = schema_version;
  owner_id = c.owner_id;
  task_id = c.task_id;
  dag_run_id = c.dag_run_id;
  node_id = c.node_id;
  source_revision = c.source_revision;
  plan_digest = c.plan_digest;
  candidate_digest = c.candidate_digest;
  contract_digest = c.contract_digest;
  execution_id = c.execution_id;
  lease_id = c.lease_id;
  resource_id = c.resource_id;
  target_resource_id = target;
  attempt = c.attempt;
  failure_class = classified.failure_class;
  failure_code = classified.code;
  fingerprint = fingerprint;
  disposition = p.disposition;
  action = p.action;
  allowed = p.allowed;
  requires_reauthorization = p.requires_reauthorization;
  requires_fresh_lease = p.requires_fresh_lease;
  reason_codes = sort_unique p.reason_codes;
  decision_digest = digest;
}

-- The decision that `decide` builds; its digest is taken of its own fields.
unfoldable pub build_decision :
    Digests
    → RecoveryContext
    → ClassifiedFailure
    → PolicyDecision
    → String
    → Option String
    → RecoveryDecision
unfolding draft_decision material_from_decision
build_decision digests c classified p fingerprint target =
    let digest =
      digests.of_decision
        (material_from_decision (draft_decision c classified p fingerprint target "")) in
    draft_decision c classified p fingerprint target digest

-- The policy's answer for a signal, on the history of the context's owner.
unfoldable pub policy_answer :
    Digests
    → RecoveryBudgets
    → FailureSignal
    → RecoveryContext
    → Option ResourceRecoveryDecision
    → History
    → PolicyDecision
policy_answer digests budgets signal context resource h =
    policy_decide (classify signal) signal context (entries_of context.owner_id h) budgets
      (failure_fingerprint digests signal context) resource

-- The decision that `decide` issues if its record is valid and it was not issued before.
unfoldable pub next_decision :
    Digests
    → RecoveryBudgets
    → FailureSignal
    → RecoveryContext
    → Option ResourceRecoveryDecision
    → History
    → RecoveryDecision
unfolding build_decision
next_decision digests budgets signal context resource h =
    let p = policy_answer digests budgets signal context resource h in
    build_decision digests context (classify signal) p (failure_fingerprint digests signal context)
      (target_of p resource)

-- `self.history.append_decision(decision, failed_checks=...)`, then `return decision`.
unfoldable pub issue : RecoveryDecision → List String → History → Checked RecoveryDecision × History
issue d failed_checks h =
    let (entry, after) = append_decision d failed_checks h in
    elim entry [ err code ↦ (err code, after) | ok _ ↦ (ok d, after) ]

-- `decide` reads the history under one lock and appends under another: `seen` is the history that it
-- has listed, and `h` the one that it appends to.
unfoldable pub decide_on_seen :
    Digests
    → RecoveryBudgets
    → FailureSignal
    → RecoveryContext
    → Option ResourceRecoveryDecision
    → History
    → History
    → Checked RecoveryDecision × History
decide_on_seen digests budgets signal context resource seen h =
    elim (check_decision (next_decision digests budgets signal context resource seen)) [
      | err code ↦ (err code, h)
      | ok d ↦ issue d signal.failed_checks h
    ]

-- A call of `decide` with no other call between its two steps.
unfoldable pub decide :
    Digests
    → RecoveryBudgets
    → FailureSignal
    → RecoveryContext
    → Option ResourceRecoveryDecision
    → History
    → Checked RecoveryDecision × History
unfolding decide_on_seen
decide digests budgets signal context resource h =
    decide_on_seen digests budgets signal context resource h h

-- `expected != actual`, negated: the decision was made for this context.
unfoldable pub same_binding : RecoveryDecision → RecoveryContext → Bool
same_binding d c =
    d.owner_id == c.owner_id
    && d.task_id == c.task_id
    && d.dag_run_id == c.dag_run_id
    && d.node_id == c.node_id
    && d.source_revision == c.source_revision
    && d.plan_digest == c.plan_digest
    && d.candidate_digest == c.candidate_digest
    && d.contract_digest == c.contract_digest
    && d.execution_id == c.execution_id
    && d.lease_id == c.lease_id
    && d.resource_id == c.resource_id
    && nat_eq d.attempt c.attempt

-- The test of the loop of `_require_issued`.
abbrev pub is_issued_entry : RecoveryDecision → RecoveryHistoryEntry → Bool
is_issued_entry d entry =
    is_decision entry
    && entry.decision_digest == d.decision_digest
    && entry.fingerprint == d.fingerprint
    && entry.task_id == d.task_id
    && entry.node_id == d.node_id
    && nat_eq entry.attempt d.attempt
    && entry.target_resource_id == d.target_resource_id

unfoldable pub require_issued : Digests → RecoveryDecision → History → Checked RecoveryHistoryEntry
require_issued digests d h =
    if not (contains_decision d h)
    then err "recovery_decision_not_issued"
    else if not (digests.of_decision (material_from_decision d) == d.decision_digest)
    then err "recovery_decision_digest_mismatch"
    else elim (find (is_issued_entry d) (entries_of d.owner_id h)) [
      | none ↦ err "recovery_decision_not_issued"
      | some entry ↦ ok entry
    ]

-- `a is not None and a != b`
abbrev pub differs : Option String → Option String → Bool
differs none b = false
differs (some a) b = not (some a == b)

-- The checks on the resource that an outcome names.
unfoldable pub check_outcome_resource : RecoveryDecision → RecoveryOutcome → Checked (Unit {0})
check_outcome_resource d o = elim d.target_resource_id [
  | some target ↦
      if differs o.resulting_resource_id (some target)
      then err "recovery_outcome_resource_mismatch"
      else if is_succeeded o.status && not (o.resulting_resource_id == some target)
      then err "successful_reroute_target_evidence_required"
      else ok tt
  | none ↦
      if differs o.resulting_resource_id d.resource_id
      then err "recovery_outcome_resource_not_authorized"
      else ok tt
]

-- `value in set(values)`, and the proper subset test `remaining < initial` of two sets.
abbrev pub contains : List String → String → Bool
contains values v = any (λ w. w == v) values

abbrev pub is_subset : List String → List String → Bool
is_subset small large = all (contains large) small

abbrev pub is_empty : List String → Bool
is_empty [] = true
is_empty (_ ∷ _) = false

unfoldable pub checks_reduced : List String → List String → Bool
checks_reduced initial remaining =
    not (is_empty initial)
    && not (is_empty remaining)
    && is_subset remaining initial
    && not (is_subset initial remaining)

unfoldable pub objective_progress : RecoveryDecision → RecoveryHistoryEntry → RecoveryOutcome → Bool
objective_progress d issued o =
    checks_reduced issued.remaining_failed_checks o.remaining_failed_checks
    || differs o.resulting_plan_digest d.plan_digest
    || differs o.resulting_candidate_digest d.candidate_digest
    || (is_reroute d.action
        && not (d.target_resource_id == none)
        && o.resulting_resource_id == d.target_resource_id)

unfoldable pub normalize_progress :
    RecoveryDecision → RecoveryHistoryEntry → RecoveryOutcome → Checked RecoveryOutcome
normalize_progress d issued o =
    let objective = objective_progress d issued o in
    if is_succeeded o.status
    then ok o
    else if o.progress && not objective
    then err "unsupported_recovery_progress"
    else if objective && not o.progress
    then ok (record o { progress = true })
    else ok o

-- The checks of `record_outcome`, and the outcome with its progress put right.
unfoldable pub checked_outcome :
    Digests
    → RecoveryDecision
    → RecoveryContext
    → RecoveryOutcome
    → History
    → Checked RecoveryOutcome
unfolding same_binding
checked_outcome digests d context o h = do
  guard (same_binding d context) "recovery_decision_binding_mismatch"
  issued ← require_issued digests d h
  check_outcome_resource d o
  normalize_progress d issued o

unfoldable pub record_outcome :
    Digests
    → RecoveryDecision
    → RecoveryContext
    → RecoveryOutcome
    → History
    → Checked RecoveryHistoryEntry × History
record_outcome digests d context o h = elim (checked_outcome digests d context o h) [
  | err code ↦ (err code, h)
  | ok normalized ↦ append_outcome d normalized h
]
