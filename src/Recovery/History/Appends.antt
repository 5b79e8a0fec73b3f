-- ===== src/Recovery/History/Appends.antt =====
-- What the operations of history.py and controller.py leave in the history: at most one entry more.
use lil_tweak.Prelude.{
  ◌≡◌, refl, ◌⊎◌, inl, inr, true, false, String, List, [], ◌∷◌, ◌++◌, if◌then◌else◌, ◌==◌,
  string_Eq, ok, Result-cases, Bool-cases, arith, eq_iff,
}
use lil_tweak.Prelude.Table.{get-put}
use lil_tweak.Recovery.Contracts.{
  RecoveryDecision, RecoveryOutcome, RecoveryHistoryEntry, check_entry, check_decision, sort_unique,
}
use lil_tweak.Recovery.Policy.{is_decision}
use lil_tweak.Recovery.History.{
  History, entries_of, append_entry, store_entry, append_decision, append_outcome, decision_entry,
  outcome_entry, next_sequence, contains_decision, has_outcome,
}

-- An append adds to the list of its owner and to no other.
pub entries_of-append_entry :
    (owner o : String) (e : RecoveryHistoryEntry) (h : History)
    → entries_of o (append_entry owner e h)
      ≡ (if owner == o then entries_of o h ++ e ∷ [] else entries_of o h)
unfolding entries_of append_entry
entries_of-append_entry owner o e h =
    ground (arith, get-put owner o (entries_of owner h ++ e ∷ []) h, eq_iff owner o)

pub check_decision-eq :
    (d built : RecoveryDecision)
    → check_decision d ≡ ok built
    → built ≡ record d { reason_codes = sort_unique d.reason_codes }
unfolding check_decision
check_decision-eq d built h = ground arith

pub check_entry-eq :
    (e built : RecoveryHistoryEntry)
    → check_entry e ≡ ok built
    → built ≡ record e { remaining_failed_checks = built.remaining_failed_checks }
unfolding check_entry
check_entry-eq e built h = ground arith

-- Storing an entry changes nothing, or adds the entry, with its checks put in order.
pub store_entry-after :
    (owner : String) (e : RecoveryHistoryEntry) (h : History)
    → ((store_entry owner e h).1 ≡ h)
      ⊎ ((built : RecoveryHistoryEntry) × (check_entry e ≡ ok built)
          × ((store_entry owner e h).1 ≡ append_entry owner built h))
unfolding store_entry
store_entry-after owner e h = elim (Result-cases (check_entry e)) [
  | inl (built, p) ↦ inr (built, p, rw (p, store_entry))
  | inr (code, p) ↦ inl (rw (p, store_entry))
]

-- Of an entry these fields count for the budgets.
pub record IsEntryOf (d : RecoveryDecision) (e : RecoveryHistoryEntry) : Type 0 where
  pub task : e.task_id ≡ d.task_id
  pub node : e.node_id ≡ d.node_id
  pub action : e.action ≡ d.action
  pub fingerprint : e.fingerprint ≡ d.fingerprint
  pub digest : e.decision_digest ≡ d.decision_digest

pub append_decision-after :
    (d : RecoveryDecision) (checks : List String) (h : History)
    → ((append_decision d checks h).1 ≡ h)
      ⊎ ((e : RecoveryHistoryEntry) × ((append_decision d checks h).1 ≡ append_entry d.owner_id e h)
          × IsEntryOf d e
          × (is_decision e ≡ true))
unfolding append_decision
append_decision-after d checks h = elim (Bool-cases (contains_decision d h)) [
  | inl there ↦ inl (rw there)
  | inr new ↦
      rw new
        (elim (store_entry-after d.owner_id (decision_entry d (next_sequence d.owner_id h) checks)
          h) [
            | inl same ↦ inl same
            | inr (e, built, after) ↦ inr (
              e,
              after,
              ground
                  (arith, check_entry-eq (decision_entry d (next_sequence d.owner_id h) checks) e),
              ground
                  (arith, check_entry-eq (decision_entry d (next_sequence d.owner_id h) checks) e),
            )
          ])
]

pub append_outcome-after :
    (d : RecoveryDecision) (o : RecoveryOutcome) (h : History)
    → ((append_outcome d o h).1 ≡ h)
      ⊎ ((e : RecoveryHistoryEntry) × ((append_outcome d o h).1 ≡ append_entry d.owner_id e h)
          × (is_decision e ≡ false)
          × (contains_decision d h ≡ true)
          × (has_outcome d h ≡ false)
          × (e.decision_digest ≡ d.decision_digest))
unfolding append_outcome
append_outcome-after d o h = elim (Bool-cases (contains_decision d h)) [
  | inr unknown ↦ inl (rw unknown)
  | inl issued ↦ elim (Bool-cases (has_outcome d h)) [
    | inl done ↦ inl (rw (issued, done))
    | inr open_yet ↦
        let entry = outcome_entry d (next_sequence d.owner_id h) o in
        rw (issued, open_yet)
          (elim (store_entry-after d.owner_id entry h) [
            | inl same ↦ inl same
            | inr (e, built, after) ↦ inr (
              e,
              after,
              ground (arith, check_entry-eq entry e),
              refl,
              refl,
              ground (arith, check_entry-eq entry e),
            )
          ])
  ]
]
