-- ===== src/Recovery/Controller/Counts.antt =====
-- How the entries of the recovery history are counted against the budgets.
use mathlib.Core.Path.{fun_ext}
use lil_tweak.Prelude.{
  ◌+◌, ◌≤◌, ◌≡◌, refl, Bool, true, false, not, ◌&&◌, String, List, [], ◌∷◌, ◌++◌, if◌then◌else◌,
  ◌==◌, string_Eq, arith, eq_iff, select, length, length-append, select-append,
}
use lil_tweak.Recovery.Vocabulary.{RecoveryAction, retry_step, is_stop}
use lil_tweak.Recovery.Contracts.{RecoveryHistoryEntry, RecoveryContext, RecoveryBudgets, limit_for}
use lil_tweak.Recovery.Policy.{is_decision, decided_action, decided_fingerprint, prior_same_action}

-- What a decision's history entry is counted for.
unfoldable pub retry_of : String → String → RecoveryHistoryEntry → Bool
retry_of task node e = e.node_id == node && decided_action task retry_step e

-- A decision to act on this failure.
unfoldable pub acted_on : String → RecoveryHistoryEntry → Bool
acted_on fingerprint e = decided_fingerprint fingerprint e && not (is_stop e.action)

abbrev pub is_retry : RecoveryAction → Bool
is_retry retry_step = true
is_retry _ = false

pub record IsWithin (budgets : RecoveryBudgets) (entries : List RecoveryHistoryEntry) : Type 0 where
  pub actions :
      (task : String) (a : RecoveryAction)
      → is_stop a ≡ false
      → is_retry a ≡ false
      → length (select (decided_action task a) entries) ≤ limit_for budgets a
  pub retries :
      (task node : String) → length (select (retry_of task node) entries) ≤ budgets.max_node_retries
  pub fingerprints :
      (fingerprint : String)
      → length (select (acted_on fingerprint) entries) ≤ budgets.max_fingerprint_retries

pub count-snoc :
    (test : RecoveryHistoryEntry → Bool) (es : List RecoveryHistoryEntry) (e : RecoveryHistoryEntry)
    → length (select test (es ++ e ∷ [])) ≡ length (select test es) + (if test e then 1 else 0)
count-snoc test es e =
    ground
      (arith, select-append test es (e ∷ []), length-append (select test es) (select test (e ∷ [])))

-- An outcome is counted for nothing.
pub outcome-IsWithin :
    (budgets : RecoveryBudgets) (es : List RecoveryHistoryEntry) (e : RecoveryHistoryEntry)
    → is_decision e ≡ false
    → IsWithin budgets es
    → IsWithin budgets (es ++ e ∷ [])
unfolding retry_of acted_on
outcome-IsWithin budgets es e outcome w = record {
  actions = λ task a act other.
      ground (arith, count-snoc (decided_action task a) es e, w.actions task a act other);
  retries = λ task node. ground (arith, count-snoc (retry_of task node) es e, w.retries task node);
  fingerprints = λ f. ground (arith, count-snoc (acted_on f) es e, w.fingerprints f);
}

pub decided_action-eq :
    (task : String) (a : RecoveryAction) (e : RecoveryHistoryEntry)
    → decided_action task a e ≡ true
    → (e.task_id ≡ task) × (e.action ≡ a)
decided_action-eq task a e h = ground (arith, eq_iff e.task_id task)

pub retry_of-eq :
    (task node : String) (e : RecoveryHistoryEntry)
    → retry_of task node e ≡ true
    → (e.node_id ≡ node) × (decided_action task retry_step e ≡ true)
unfolding retry_of
retry_of-eq task node e h = ground (arith, eq_iff e.node_id node)

pub acted_on-eq :
    (fingerprint : String) (e : RecoveryHistoryEntry)
    → acted_on fingerprint e ≡ true
    → (e.fingerprint ≡ fingerprint) × (is_stop e.action ≡ false)
unfolding acted_on
acted_on-eq fingerprint e h = ground (arith, eq_iff e.fingerprint fingerprint)

pub prior-mission :
    (c : RecoveryContext) (a : RecoveryAction)
    → is_retry a ≡ false
    → prior_same_action c a ≡ decided_action c.task_id a
unfolding prior_same_action
prior-mission c retry_step h = cc
prior-mission c _ h = fun_ext (λ e. refl)

pub prior-node :
    (c : RecoveryContext) → prior_same_action c retry_step ≡ retry_of c.task_id c.node_id
unfolding prior_same_action retry_of
prior-node c = fun_ext (λ e. refl)

-- The entries that the fingerprint budget counts are at least those that acted.
pub acted_on-le :
    (fingerprint : String) (es : List RecoveryHistoryEntry)
    → length (select (acted_on fingerprint) es)
      ≤ length (select (decided_fingerprint fingerprint) es)
unfolding acted_on
acted_on-le fingerprint [] = omega arith
acted_on-le fingerprint (e ∷ es) = ground (arith, acted_on-le fingerprint es)
