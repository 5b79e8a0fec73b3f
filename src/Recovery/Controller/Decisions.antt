-- ===== src/Recovery/Controller/Decisions.antt =====
-- What `decide` of controller.py adds to the history, and why it still fits the budgets.
use lil_tweak.Prelude.{
  ◌<◌, ◌≡◌, refl, ◌∙◌, sym, ◌⊎◌, inl, inr, true, false, String, Option, List, [], ◌∷◌, ◌++◌,
  string_Eq, ok, arith, select, length, Result-cases,
}
use lil_tweak.Recovery.Vocabulary.{RecoveryAction, retry_step, is_stop}
use lil_tweak.Recovery.Contracts.{
  RecoveryDecision, RecoveryHistoryEntry, RecoveryContext, RecoveryBudgets, FailureSignal,
  ResourceRecoveryDecision, limit_for, check_decision,
}
use lil_tweak.Recovery.Classifier.{classify}
use lil_tweak.Recovery.Fingerprints.{Digests, failure_fingerprint}
use lil_tweak.Recovery.Policy.{is_decision, decided_action, prior_same_action}
use lil_tweak.Recovery.Policy.Safety.{IsJustified, decide-IsJustified, allowed_of_action}
use lil_tweak.Recovery.History.{History, entries_of, append_entry, append_decision}
use lil_tweak.Recovery.History.Appends.{check_decision-eq, IsEntryOf, append_decision-after}
use lil_tweak.Recovery.Controller.{decide, decide_on_seen, next_decision, issue, policy_answer}
use lil_tweak.Recovery.Controller.Counts.{
  IsWithin, retry_of, acted_on, is_retry, count-snoc, decided_action-eq, retry_of-eq, acted_on-eq,
  prior-mission, prior-node, acted_on-le,
}

issue-history :
    (d : RecoveryDecision) (checks : List String) (h : History)
    → (issue d checks h).1 ≡ (append_decision d checks h).1
unfolding issue
issue-history d checks h = elim (Result-cases (append_decision d checks h).0) [
  | inl (e, p) ↦ rw (p, issue)
  | inr (c, p) ↦ rw (p, issue)
]

module _ (digests : Digests) (budgets : RecoveryBudgets) where
  module _ (signal : FailureSignal) (context : RecoveryContext)
      (resource : Option ResourceRecoveryDecision) (seen : History) where
    abbrev pub next : RecoveryDecision
    next = next_decision digests budgets signal context resource seen

    next-owner : next.owner_id ≡ context.owner_id
    unfolding next_decision
    next-owner = refl

    -- A decision that was checked differs from the one that was built in the order of its reasons.
    issued-after :
        (h : History) (d : RecoveryDecision)
        → check_decision next ≡ ok d
        → ((issue d signal.failed_checks h).1 ≡ h)
          ⊎ ((e : RecoveryHistoryEntry) × ((issue d signal.failed_checks h).1
                ≡ append_entry context.owner_id e h)
              × IsEntryOf next e
              × (is_decision e ≡ true))
    issued-after h d p = elim (append_decision-after d signal.failed_checks h) [
      | inl same ↦ inl (issue-history d signal.failed_checks h ∙ same)
      | inr (e, after, fields, decision) ↦
          let same = rw (check_decision-eq next d p) at fields in
          inr (
            e,
            cc (
              issue-history d signal.failed_checks h,
              after,
              check_decision-eq next d p,
              next-owner,
            ),
            record {
              task = same.task;
              node = same.node;
              action = same.action;
              fingerprint = same.fingerprint;
              digest = same.digest;
            },
            decision,
          )
    ]

    -- `decide` leaves the history that it appends to as it was, or with one entry for its decision more.
    pub decide_on_seen-after :
        (h : History)
        → ((decide_on_seen digests budgets signal context resource seen h).1 ≡ h)
          ⊎ ((e : RecoveryHistoryEntry) × ((decide_on_seen digests budgets signal context resource
                  seen h).1
                ≡ append_entry context.owner_id e h)
              × IsEntryOf next e
              × (is_decision e ≡ true))
    unfolding decide_on_seen
    decide_on_seen-after h = elim (Result-cases (check_decision next)) [
      | inr (code, p) ↦ inl (rw (p, decide_on_seen))
      | inl (d, p) ↦ rw (p, decide_on_seen) (issued-after h d p)
    ]

    pub decide-after :
        ((decide digests budgets signal context resource seen).1 ≡ seen)
        ⊎ ((e : RecoveryHistoryEntry) × ((decide digests budgets signal context resource seen).1
              ≡ append_entry context.owner_id e seen)
            × IsEntryOf next e
            × (is_decision e ≡ true))
    unfolding decide
    decide-after = decide_on_seen-after seen

    next-fields :
        (next.task_id ≡ context.task_id)
        × (next.node_id ≡ context.node_id)
        × (next.fingerprint ≡ failure_fingerprint digests signal context)
    unfolding next_decision
    next-fields = (refl, refl, refl)

    abbrev pub before : List RecoveryHistoryEntry
    before = entries_of context.owner_id seen

    justified :
        is_stop next.action ≡ false
        → IsJustified
            (classify signal)
            signal
            context
            before
            budgets
            (failure_fingerprint digests signal context)
            resource
    unfolding next_decision policy_answer
    justified acts =
        decide-IsJustified (classify signal) signal context before budgets
          (failure_fingerprint digests signal context) resource
          (allowed_of_action (classify signal) signal context before budgets
            (failure_fingerprint digests signal context) resource acts)

    -- What a decision that acts found before it.
    room :
        is_stop next.action ≡ false
        → (length (select (prior_same_action context next.action) before)
            < limit_for budgets next.action)
          × (length (select (acted_on next.fingerprint) before) < budgets.max_fingerprint_retries)
    unfolding next_decision policy_answer
    room acts =
        let j = justified acts in
        (
          j.action_budget,
          omega (
            arith,
            j.fingerprint_budget,
            acted_on-le (failure_fingerprint digests signal context) before,
          ),
        )

    pub action_fits :
        (task : String) (a : RecoveryAction) (e : RecoveryHistoryEntry)
        → IsEntryOf next e
        → is_stop a ≡ false
        → is_retry a ≡ false
        → decided_action task a e ≡ true
        → length (select (decided_action task a) before) < limit_for budgets a
    action_fits task a e fields act other counted =
        let (t, b) = decided_action-eq task a e counted in
        let same_task : task ≡ context.task_id = sym t ∙ fields.task ∙ next-fields.0 in
        let same_action : a ≡ next.action = sym b ∙ fields.action in
        rw (same_task, ← prior-mission context a other, same_action)
          (room (rw (← same_action) act)).0

    pub retry_fits :
        (task node : String) (e : RecoveryHistoryEntry)
        → IsEntryOf next e
        → retry_of task node e ≡ true
        → length (select (retry_of task node) before) < budgets.max_node_retries
    unfolding limit_for
    retry_fits task node e fields counted =
        let (n, c) = retry_of-eq task node e counted in
        let (t, b) = decided_action-eq task retry_step e c in
        let same_task : task ≡ context.task_id = sym t ∙ fields.task ∙ next-fields.0 in
        let same_node : node ≡ context.node_id = sym n ∙ fields.node ∙ next-fields.1 in
        let retry : next.action ≡ retry_step = sym fields.action ∙ b in
        rw (same_task, same_node, ← prior-node context) (rw retry at (room (rw retry refl)).0)

    pub fingerprint_fits :
        (fingerprint : String) (e : RecoveryHistoryEntry)
        → IsEntryOf next e
        → acted_on fingerprint e ≡ true
        → length (select (acted_on fingerprint) before) < budgets.max_fingerprint_retries
    fingerprint_fits fingerprint e fields counted =
        let (f, acts) = acted_on-eq fingerprint e counted in
        let same : fingerprint ≡ next.fingerprint = sym f ∙ fields.fingerprint in
        rw same (room (rw fields.action at acts)).1

    -- With the entry of a new decision, the budgets still hold.
    pub decision-IsWithin :
        (e : RecoveryHistoryEntry)
        → IsEntryOf next e
        → IsWithin budgets before
        → IsWithin budgets (before ++ e ∷ [])
    decision-IsWithin e fields w = record {
      actions = λ task a act other. ground (
        arith,
        count-snoc (decided_action task a) before e,
        w.actions task a act other,
        action_fits task a e fields act other,
      );
      retries = λ task node. ground (
        arith,
        count-snoc (retry_of task node) before e,
        w.retries task node,
        retry_fits task node e fields,
      );
      fingerprints = λ f.
          ground (
            arith,
            count-snoc (acted_on f) before e,
            w.fingerprints f,
            fingerprint_fits f e fields,
          );
    }
