-- ===== src/Recovery/Fingerprints.antt =====
-- core/lil_tweak/failure_recovery/fingerprints.py: what identifies a failure and a decision. The
-- canonical JSON text of a payload and its SHA-256 are one function of the payload, a parameter.
use lil_tweak.Prelude.{ℕ, Bool, String, Option, List, ◌≡◌, true}
use lil_tweak.Prelude.Text.{is_hex_text}
use lil_tweak.Recovery.Vocabulary.{
  FailureClass, FailureCode, RecoveryDisposition, RecoveryAction, code_value,
}
use lil_tweak.Recovery.Contracts.{
  EvidenceRef, RecoveryContext, FailureSignal, SignalCode, known, other, RecoveryDecision,
}

-- The payload of `failure_fingerprint`: neither the message nor the attempt is part of it.
pub record FailurePayload : Type 0 where
  pub owner_id : String
  pub task_id : String
  pub dag_run_id : String
  pub node_id : String
  pub source_revision : Option String
  pub plan_digest : Option String
  pub candidate_digest : Option String
  pub contract_digest : Option String
  pub resource_id : Option String
  pub code : String
  pub exception_type : String
  pub failed_checks : List String
  pub evidence : List EvidenceRef
  pub transient : Bool
  pub partial_mutation : Bool
  pub integrity_failure : Bool
  pub security_sensitive : Bool

-- The payload of `decision_digest`: all of a decision but its digest and its schema.
pub record DecisionMaterial : Type 0 where
  pub owner_id : String
  pub task_id : String
  pub dag_run_id : String
  pub node_id : String
  pub source_revision : Option String
  pub plan_digest : Option String
  pub candidate_digest : Option String
  pub contract_digest : Option String
  pub execution_id : Option String
  pub lease_id : Option String
  pub resource_id : Option String
  pub target_resource_id : Option String
  pub attempt : ℕ
  pub failure_class : FailureClass
  pub failure_code : FailureCode
  pub fingerprint : String
  pub disposition : RecoveryDisposition
  pub action : RecoveryAction
  pub allowed : Bool
  pub requires_reauthorization : Bool
  pub requires_fresh_lease : Bool
  pub reason_codes : List String

-- SHA-256 over canonical JSON: some function of the payload, whose values are 64 hexadecimal digits.
pub record Digests : Type 0 where
  pub of_failure : FailurePayload → String
  pub of_decision : DecisionMaterial → String
  pub of_failure_hex : (p : FailurePayload) → is_hex_text 64 (of_failure p) ≡ true
  pub of_decision_hex : (m : DecisionMaterial) → is_hex_text 64 (of_decision m) ≡ true

unfoldable pub signal_text : SignalCode → String
unfolding code_value
signal_text (known code) = code_value code
signal_text (other raw) = raw

unfoldable pub failure_payload : FailureSignal → RecoveryContext → FailurePayload
unfolding signal_text
failure_payload signal context = record {
  owner_id = context.owner_id;
  task_id = context.task_id;
  dag_run_id = context.dag_run_id;
  node_id = context.node_id;
  source_revision = context.source_revision;
  plan_digest = context.plan_digest;
  candidate_digest = context.candidate_digest;
  contract_digest = context.contract_digest;
  resource_id = context.resource_id;
  code = signal_text signal.code;
  exception_type = signal.exception_type;
  failed_checks = signal.failed_checks;
  evidence = signal.evidence;
  transient = signal.transient;
  partial_mutation = signal.partial_mutation;
  integrity_failure = signal.integrity_failure;
  security_sensitive = signal.security_sensitive;
}

abbrev pub failure_fingerprint : Digests → FailureSignal → RecoveryContext → String
failure_fingerprint digests signal context = digests.of_failure (failure_payload signal context)

-- `_material_from_decision`
unfoldable pub material_from_decision : RecoveryDecision → DecisionMaterial
material_from_decision d = record {
  owner_id = d.owner_id;
  task_id = d.task_id;
  dag_run_id = d.dag_run_id;
  node_id = d.node_id;
  source_revision = d.source_revision;
  plan_digest = d.plan_digest;
  candidate_digest = d.candidate_digest;
  contract_digest = d.contract_digest;
  execution_id = d.execution_id;
  lease_id = d.lease_id;
  resource_id = d.resource_id;
  target_resource_id = d.target_resource_id;
  attempt = d.attempt;
  failure_class = d.failure_class;
  failure_code = d.failure_code;
  fingerprint = d.fingerprint;
  disposition = d.disposition;
  action = d.action;
  allowed = d.allowed;
  requires_reauthorization = d.requires_reauthorization;
  requires_fresh_lease = d.requires_fresh_lease;
  reason_codes = d.reason_codes;
}
