-- ===== src/Recovery/Controller/Budgets.antt =====
-- Over any sequence of decisions and outcomes, the history stays within the recovery budgets.
use lil_tweak.Prelude.{
  ◌≡◌, ◌⊎◌, inl, inr, false, String, Option, List, [], ◌∷◌, ◌++◌, ◌==◌, string_Eq, arith, eq_iff,
  Result-cases, Bool-cases,
}
use lil_tweak.Recovery.Contracts.{
  RecoveryDecision, RecoveryOutcome, RecoveryHistoryEntry, RecoveryContext, RecoveryBudgets,
  FailureSignal, ResourceRecoveryDecision,
}
use lil_tweak.Recovery.Fingerprints.{Digests}
use lil_tweak.Recovery.Policy.{is_decision}
use lil_tweak.Recovery.History.{History, entries_of, append_entry}
use lil_tweak.Recovery.History.Appends.{entries_of-append_entry, append_outcome-after}
use lil_tweak.Recovery.Controller.{decide, checked_outcome, record_outcome}
use lil_tweak.Recovery.Controller.Counts.{IsWithin, outcome-IsWithin}
use lil_tweak.Recovery.Controller.Decisions.{decide-after, decision-IsWithin}

-- The two calls that write to the history, with any arguments.
pub data Event : Type 0 where
  decide_on : FailureSignal → RecoveryContext → Option ResourceRecoveryDecision → Event
  record_on : RecoveryDecision → RecoveryContext → RecoveryOutcome → Event

pub record_outcome-after :
    (digests : Digests) (d : RecoveryDecision) (context : RecoveryContext) (o : RecoveryOutcome)
    (h : History)
    → ((record_outcome digests d context o h).1 ≡ h)
      ⊎ ((e : RecoveryHistoryEntry) × ((record_outcome digests d context o h).1
            ≡ append_entry d.owner_id e h)
          × (is_decision e ≡ false))
unfolding record_outcome
record_outcome-after digests d context o h =
    elim (Result-cases (checked_outcome digests d context o h)) [
      | inr (code, p) ↦ inl (rw (p, record_outcome))
      | inl (n, p) ↦ elim (append_outcome-after d n h) [
        | inl same ↦ inl (rw (p, record_outcome) same)
        | inr (e, more, outcome, _, _, _) ↦ inr (e, rw (p, record_outcome) more, outcome)
      ]
    ]

module _ (digests : Digests) (budgets : RecoveryBudgets) where
  abbrev pub step : History → Event → History
  step h (decide_on signal context resource) = (decide digests budgets signal context resource h).1
  step h (record_on d context o) = (record_outcome digests d context o h).1

  abbrev pub after : History → List Event → History
  after h [] = h
  after h (e ∷ events) = after (step h e) events

  append-IsWithin :
      (owner o : String) (e : RecoveryHistoryEntry) (h : History)
      → IsWithin budgets (entries_of o h)
      → IsWithin budgets (entries_of owner h ++ e ∷ [])
      → IsWithin budgets (entries_of o (append_entry owner e h))
  append-IsWithin owner o e h w more = elim (Bool-cases (owner == o)) [
    | inl same ↦
        rw (entries_of-append_entry owner o e h, same) (rw ((eq_iff owner o).0 same) at more)
    | inr other ↦ rw (entries_of-append_entry owner o e h, other) w
  ]

  step-IsWithin :
      (h : History) (event : Event) (o : String)
      → ((p : String) → IsWithin budgets (entries_of p h))
      → IsWithin budgets (entries_of o (step h event))
  step-IsWithin h (decide_on signal context resource) o w =
      elim (decide-after digests budgets signal context resource h) [
        | inl same ↦ rw same (w o)
        | inr (e, more, fields, _) ↦ rw more (
            append-IsWithin context.owner_id o e h (w o) (
              decision-IsWithin digests budgets signal context resource h e fields
                (w context.owner_id)))
      ]
  step-IsWithin h (record_on d context x) o w = elim (record_outcome-after digests d context x h) [
    | inl same ↦ rw same (w o)
    | inr (e, more, outcome) ↦ rw more (
        append-IsWithin d.owner_id o e h (w o)
          (outcome-IsWithin budgets (entries_of d.owner_id h) e outcome (w d.owner_id)))
  ]

  IsWithin-nil : IsWithin budgets []
  IsWithin-nil = record {
    actions = λ task a act other. omega arith;
    retries = λ task node. omega arith;
    fingerprints = λ f. omega arith;
  }

  after-IsWithin :
      (h : History) (events : List Event)
      → ((o : String) → IsWithin budgets (entries_of o h))
      → (o : String) → IsWithin budgets (entries_of o (after h events))
  after-IsWithin h [] w o = w o
  after-IsWithin h (e ∷ events) w o =
      after-IsWithin (step h e) events (λ p. step-IsWithin h e p w) o

  -- Whatever decisions are asked for, one after another, and whatever outcomes are recorded, from an empty history on: no
  -- owner's history holds more decisions of a mission to replan, repair, roll back, reroute or
  -- requalify than the budget of that action, nor more retries of a node of a mission than the node
  -- budget, nor more decisions to act on a failure than the budget of its fingerprint.
  pub budgets_hold :
      (events : List Event) (o : String) → IsWithin budgets (entries_of o (after [] events))
  unfolding entries_of
  budgets_hold events o = after-IsWithin [] events (λ p. IsWithin-nil) o
