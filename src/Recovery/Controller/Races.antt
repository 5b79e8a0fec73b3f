-- ===== src/Recovery/Controller/Races.antt =====
-- What `decide` of controller.py can add to the history when other calls come between its two steps.
use lil_tweak.Prelude.{
  ◌+◌, ◌≤◌, ◌<◌, ◌≡◌, refl, ℕ, true, Bool-cases, beq_refl, ◌⊎◌, inl, inr, Bool, false, String,
  Option, List, [], ◌∷◌, ◌++◌, string_Eq, arith, select, length, length-append, select-append,
}
use lil_tweak.Recovery.Vocabulary.{RecoveryAction, is_stop}
use lil_tweak.Recovery.Contracts.{
  RecoveryHistoryEntry, RecoveryContext, RecoveryBudgets, FailureSignal, ResourceRecoveryDecision,
  limit_for,
}
use lil_tweak.Recovery.Fingerprints.{Digests}
use lil_tweak.Recovery.Policy.{decided_action}
use lil_tweak.Recovery.History.{History, entries_of}
use lil_tweak.Recovery.History.Appends.{entries_of-append_entry}
use lil_tweak.Recovery.Controller.{decide_on_seen}
use lil_tweak.Recovery.Controller.Counts.{retry_of, acted_on, is_retry, count-snoc}
use lil_tweak.Recovery.Controller.Decisions.{
  before, decide_on_seen-after, action_fits, retry_fits, fingerprint_fits,
}

abbrev pub count_of : (RecoveryHistoryEntry → Bool) → List RecoveryHistoryEntry → ℕ
count_of test entries = length (select test entries)

-- The count stays, or is over the limit by no more than what others have added.
abbrev pub IsNear :
    ℕ → (RecoveryHistoryEntry → Bool) → (more found left : List RecoveryHistoryEntry) → Type 0
IsNear limit test more found left =
    (count_of test left ≡ count_of test found) ⊎ (count_of test left ≤ limit + count_of test more)

-- The budgets of the actions, the nodes and the fingerprints, exceeded by no more than what others have added.
pub record IsLoose (budgets : RecoveryBudgets) (more found left : List RecoveryHistoryEntry)
    : Type 0 where
  pub actions :
      (task : String) (a : RecoveryAction)
      → is_stop a ≡ false
      → is_retry a ≡ false
      → IsNear (limit_for budgets a) (decided_action task a) more found left
  pub retries :
      (task node : String) → IsNear budgets.max_node_retries (retry_of task node) more found left
  pub fingerprints :
      (fingerprint : String)
      → IsNear budgets.max_fingerprint_retries (acted_on fingerprint) more found left

-- One entry more, for which there was room in what had been seen.
one_more :
    (limit : ℕ) (test : RecoveryHistoryEntry → Bool) (seen more : List RecoveryHistoryEntry)
    (e : RecoveryHistoryEntry)
    → (test e ≡ true → count_of test seen < limit)
    → IsNear limit test more (seen ++ more) ((seen ++ more) ++ e ∷ [])
one_more limit test seen more e room = elim (Bool-cases (test e)) [
  | inl counted ↦ inr (
      ground (
        arith,
        room counted,
        counted,
        count-snoc test (seen ++ more) e,
        select-append test seen more,
        length-append (select test seen) (select test more),
      ))
  | inr other ↦ inl (ground (arith, other, count-snoc test (seen ++ more) e))
]

-- Let `decide` have listed the history, and let any further entries of the owner have been appended before it appends its own: then each count that a budget limits is as it was before this call, or over its budget by at most the number of counted entries that came in between.
pub late_decision_is_bounded :
    (digests : Digests) (budgets : RecoveryBudgets) (signal : FailureSignal)
    (context : RecoveryContext) (resource : Option ResourceRecoveryDecision) (seen h : History)
    (more : List RecoveryHistoryEntry)
    → entries_of context.owner_id h ≡ entries_of context.owner_id seen ++ more
    → IsLoose budgets more (entries_of context.owner_id h) (
        entries_of context.owner_id
          (decide_on_seen digests budgets signal context resource seen h).1)
late_decision_is_bounded digests budgets signal context resource seen h more between =
    elim (decide_on_seen-after digests budgets signal context resource seen h) [
      | inl same ↦ rw same (record {
        actions = λ task a act other. inl refl;
        retries = λ task node. inl refl;
        fingerprints = λ f. inl refl;
      })
      | inr (e, added, fields, _) ↦
          let b = before digests budgets signal context resource seen in
          rw
            (
              added,
              entries_of-append_entry context.owner_id context.owner_id e h,
              beq_refl context.owner_id,
              between,
            )
            (record {
              actions = λ task a act other.
                  one_more (limit_for budgets a) (decided_action task a) b more e (
                    action_fits digests budgets signal context resource seen task a e fields act
                      other);
              retries = λ task node.
                  one_more budgets.max_node_retries (retry_of task node) b more e
                    (retry_fits digests budgets signal context resource seen task node e fields);
              fingerprints = λ f.
                  one_more budgets.max_fingerprint_retries (acted_on f) b more e
                    (fingerprint_fits digests budgets signal context resource seen f e fields);
            })
    ]
