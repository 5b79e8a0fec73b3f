-- ===== src/Recovery/Contracts/Outcomes.antt =====
-- The outcome of a recovery and the entries of its history, of contracts.py.
use lil_tweak.Prelude.{
  ℕ, Bool, not, ◌&&◌, String, Option, some, List, leb, string_Eq, option_Eq, ok, ◌>>=◌, ◌>>◌, guard,
}
use lil_tweak.Recovery.Vocabulary.{RecoveryAction, RecoveryOutcomeStatus, is_succeeded}
use lil_tweak.Recovery.Contracts.Checks.{Checked, require_id, require_optional_id, require_digest}
use lil_tweak.Recovery.Contracts.Strings.{normalize_strings}

pub record RecoveryOutcome : Type 0 where
  pub status : RecoveryOutcomeStatus
  pub progress : Bool
  pub remaining_failed_checks : List String
  pub resulting_plan_digest : Option String
  pub resulting_candidate_digest : Option String
  pub resulting_resource_id : Option String
  pub independently_verified : Bool

unfoldable pub check_outcome : RecoveryOutcome → Checked RecoveryOutcome
check_outcome o = do
  checks ← normalize_strings o.remaining_failed_checks "remaining_failed_check_invalid"
  require_digest o.resulting_plan_digest "resulting_plan_digest_invalid"
  require_digest o.resulting_candidate_digest "resulting_candidate_digest_invalid"
  require_optional_id o.resulting_resource_id "resulting_resource_id_invalid"
  guard (not (is_succeeded o.status && not o.progress)) "successful_outcome_requires_progress"
  guard (not (is_succeeded o.status && not o.independently_verified)) "verified_outcome_required"
  ok (record o { remaining_failed_checks = checks })

pub record RecoveryHistoryEntry : Type 0 where
  pub owner_id : String
  pub sequence : ℕ
  pub task_id : String
  pub fingerprint : String
  pub action : RecoveryAction
  pub decision_digest : String
  pub outcome_status : Option RecoveryOutcomeStatus
  pub progress : Option Bool
  pub remaining_failed_checks : List String
  pub resulting_plan_digest : Option String
  pub resulting_candidate_digest : Option String
  pub resulting_resource_id : Option String
  pub node_id : String
  pub attempt : ℕ
  pub target_resource_id : Option String

unfoldable pub check_entry : RecoveryHistoryEntry → Checked RecoveryHistoryEntry
check_entry e = do
  require_id e.owner_id "owner_id_invalid"
  require_id e.task_id "task_id_invalid"
  require_id e.node_id "node_id_invalid"
  guard (leb 1 e.sequence) "history_sequence_invalid"
  guard (leb 1 e.attempt) "attempt_must_be_positive"
  require_digest (some e.fingerprint) "failure_fingerprint_invalid"
  require_digest (some e.decision_digest) "decision_digest_invalid"
  checks ← normalize_strings e.remaining_failed_checks "remaining_failed_check_invalid"
  require_digest e.resulting_plan_digest "resulting_plan_digest_invalid"
  require_digest e.resulting_candidate_digest "resulting_candidate_digest_invalid"
  require_optional_id e.resulting_resource_id "resulting_resource_id_invalid"
  require_optional_id e.target_resource_id "target_resource_id_invalid"
  ok (record e { remaining_failed_checks = checks })
