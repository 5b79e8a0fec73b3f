-- ===== src/Recovery/History.antt =====
-- core/lil_tweak/failure_recovery/history.py: the append-only history of decisions and outcomes, one
-- list for each owner.
pub mod Appends
use lil_tweak.Prelude.{
  ℕ, ◌+◌, Bool, true, false, not, ◌&&◌, String, Option, some, none, List, [], ◌∷◌, ◌++◌, any,
  length, nat_eq, if◌then◌else◌, ◌==◌, string_Eq, option_Eq, Result, ok, err,
}
use lil_tweak.Prelude.Table.{Table, get, put}
use lil_tweak.Recovery.Contracts.{
  RecoveryDecision, RecoveryOutcome, RecoveryHistoryEntry, Checked, check_entry,
}
use lil_tweak.Recovery.Policy.{is_decision}

abbrev pub History : Type 0
History = Table String (List RecoveryHistoryEntry)

-- `self._entries.get(owner_id, ())`, which `list` copies.
unfoldable pub entries_of : String → History → List RecoveryHistoryEntry
unfolding get
entries_of owner h = elim (get owner h) [ none ↦ [] | some entries ↦ entries ]

-- The test of `contains_decision` on one entry.
unfoldable pub matches_decision : RecoveryDecision → RecoveryHistoryEntry → Bool
matches_decision d item =
    item.decision_digest == d.decision_digest
    && item.fingerprint == d.fingerprint
    && item.task_id == d.task_id
    && item.node_id == d.node_id
    && nat_eq item.attempt d.attempt
    && item.target_resource_id == d.target_resource_id
    && is_decision item

unfoldable pub contains_decision : RecoveryDecision → History → Bool
unfolding entries_of matches_decision
contains_decision d h = any (matches_decision d) (entries_of d.owner_id h)

abbrev pub is_outcome_of : RecoveryDecision → RecoveryHistoryEntry → Bool
is_outcome_of d item = item.decision_digest == d.decision_digest && not (is_decision item)

unfoldable pub has_outcome : RecoveryDecision → History → Bool
unfolding entries_of
has_outcome d h = any (is_outcome_of d) (entries_of d.owner_id h)

-- `_next`
unfoldable pub next_sequence : String → History → ℕ
unfolding entries_of
next_sequence owner h = length (entries_of owner h) + 1

-- `_entry` without an outcome
unfoldable pub decision_entry : RecoveryDecision → ℕ → List String → RecoveryHistoryEntry
decision_entry d sequence failed_checks = record {
  owner_id = d.owner_id;
  sequence = sequence;
  task_id = d.task_id;
  fingerprint = d.fingerprint;
  action = d.action;
  decision_digest = d.decision_digest;
  outcome_status = none;
  progress = none;
  remaining_failed_checks = failed_checks;
  resulting_plan_digest = none;
  resulting_candidate_digest = none;
  resulting_resource_id = none;
  node_id = d.node_id;
  attempt = d.attempt;
  target_resource_id = d.target_resource_id;
}

-- `_entry` with an outcome
unfoldable pub outcome_entry : RecoveryDecision → ℕ → RecoveryOutcome → RecoveryHistoryEntry
unfolding decision_entry
outcome_entry d sequence o = record (decision_entry d sequence o.remaining_failed_checks) {
  outcome_status = some o.status;
  progress = some o.progress;
  resulting_plan_digest = o.resulting_plan_digest;
  resulting_candidate_digest = o.resulting_candidate_digest;
  resulting_resource_id = o.resulting_resource_id;
}

-- `self._entries.setdefault(owner, []).append(entry)`
unfoldable pub append_entry : String → RecoveryHistoryEntry → History → History
unfolding entries_of put
append_entry owner entry h = put owner (entries_of owner h ++ entry ∷ []) h

-- The end of both appends: the entry is built, which may fail, and then stored.
unfoldable pub store_entry :
    String → RecoveryHistoryEntry → History → Checked RecoveryHistoryEntry × History
unfolding append_entry
store_entry owner entry h = elim (check_entry entry) [
  | err code ↦ (err code, h)
  | ok built ↦ (ok built, append_entry owner built h)
]

unfoldable pub append_decision :
    RecoveryDecision → List String → History → Checked RecoveryHistoryEntry × History
unfolding contains_decision decision_entry next_sequence store_entry
append_decision d failed_checks h =
    if contains_decision d h
    then (err "recovery_decision_already_issued", h)
    else store_entry d.owner_id (decision_entry d (next_sequence d.owner_id h) failed_checks) h

unfoldable pub append_outcome :
    RecoveryDecision → RecoveryOutcome → History → Checked RecoveryHistoryEntry × History
unfolding contains_decision has_outcome outcome_entry next_sequence store_entry
append_outcome d o h =
    if not (contains_decision d h)
    then (err "recovery_decision_not_issued", h)
    else if has_outcome d h
    then (err "recovery_outcome_already_recorded", h)
    else store_entry d.owner_id (outcome_entry d (next_sequence d.owner_id h) o) h
