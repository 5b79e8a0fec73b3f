-- ===== src/Recovery/Policy/Safety.antt =====
-- What policy.py's `decide` allows: approvals, authority, resources and budgets.
use lil_tweak.Prelude.{
  ◌≡◌, refl, ◌≢◌, ◌⊎◌, inl, inr, ◌∙◌, ◌<◌, true, false, String, Option, some, none, List, length,
  select, arith, eq_iff,
}
use lil_tweak.Recovery.Vocabulary.{is_stop}
use lil_tweak.Recovery.Contracts.{
  FailureSignal, RecoveryContext, RecoveryBudgets, ResourceRecoveryDecision, ClassifiedFailure,
  RecoveryHistoryEntry, limit_for,
}
use lil_tweak.Recovery.Policy.{
  PolicyDecision, needs_approval, blocked, blocked_for_approval, validate_resource, base_decision,
  decided_fingerprint, prior_same_action, within_budgets, policy_decide, is_reroute,
}

-- What the budget rule leaves of a decision that is still allowed.
within_budgets-allowed :
    (base : PolicyDecision) (context : RecoveryContext) (history : List RecoveryHistoryEntry)
    (budgets : RecoveryBudgets) (fingerprint : String)
    → (is_stop base.action ≡ true → base.allowed ≡ false)
    → (within_budgets base context history budgets fingerprint).allowed ≡ true
    → (within_budgets base context history budgets fingerprint ≡ base)
      × (is_stop base.action ≡ false)
      × (length (select (prior_same_action context base.action) history)
          < limit_for budgets base.action)
      × (length (select (decided_fingerprint fingerprint) history)
          < budgets.max_fingerprint_retries)
unfolding within_budgets
within_budgets-allowed base context history budgets fingerprint stop h = ground arith

within_budgets-acts :
    (base : PolicyDecision) (context : RecoveryContext) (history : List RecoveryHistoryEntry)
    (budgets : RecoveryBudgets) (fingerprint : String)
    → (is_stop base.action ≡ false → base.allowed ≡ true)
    → is_stop (within_budgets base context history budgets fingerprint).action ≡ false
    → (within_budgets base context history budgets fingerprint).allowed ≡ true
unfolding within_budgets
within_budgets-acts base context history budgets fingerprint acts h = ground arith

-- A resource that passes every gate and is another than the current one.
pub record IsSuitable (resource : Option ResourceRecoveryDecision) (current : Option String)
    : Type 0 where
  pub chosen : ResourceRecoveryDecision
  pub given : resource ≡ some chosen
  pub distinct : current ≢ some chosen.resource_id
  pub qualified : chosen.qualified ≡ true
  pub healthy : chosen.healthy ≡ true
  pub authorized : chosen.authorized ≡ true
  pub cost_approved : chosen.cost_approved ≡ true
  pub fresh_lease : chosen.fresh_lease ≡ true
  pub source_bound : chosen.source_bound ≡ true

validate_resource-IsSuitable :
    (resource : Option ResourceRecoveryDecision) (current : Option String)
    → validate_resource resource current ≡ none
    → IsSuitable resource current
unfolding validate_resource
validate_resource-IsSuitable none current h = cc
validate_resource-IsSuitable (some r) none h = record {
  chosen = r;
  given = refl;
  distinct = λ e. cc;
  qualified = ground arith;
  healthy = ground arith;
  authorized = ground arith;
  cost_approved = ground arith;
  fresh_lease = ground arith;
  source_bound = ground arith;
}
validate_resource-IsSuitable (some r) (some c) h = record {
  chosen = r;
  given = refl;
  distinct = λ e. ground (arith, eq_iff r.resource_id c);
  qualified = ground arith;
  healthy = ground arith;
  authorized = ground arith;
  cost_approved = ground arith;
  fresh_lease = ground arith;
  source_bound = ground arith;
}

module _ (classified : ClassifiedFailure) (signal : FailureSignal) (context : RecoveryContext)
    (history : List RecoveryHistoryEntry) (budgets : RecoveryBudgets) (fingerprint : String)
    (resource : Option ResourceRecoveryDecision) where
  abbrev decided : PolicyDecision
  decided = policy_decide classified signal context history budgets fingerprint resource

  base_stops :
      is_stop (base_decision classified signal).action ≡ true
      → (base_decision classified signal).allowed ≡ false
  unfolding base_decision
  base_stops h = ground arith

  abbrev fresh : PolicyDecision
  fresh = record (base_decision classified signal) { requires_fresh_lease = true }

  -- An allowed decision passed the gates, and is what the budget rule leaves.
  gates :
      decided.allowed ≡ true
      → (context.new_authority_required ≡ false)
        × ((needs_approval (base_decision classified signal).action ≡ false)
            ⊎ (context.approval_present ≡ true))
        × (((is_reroute (base_decision classified signal).action ≡ true)
              × (validate_resource resource context.resource_id ≡ none)
              × (decided ≡ within_budgets fresh context history budgets fingerprint))
            ⊎ ((is_reroute (base_decision classified signal).action ≡ false)
                × (decided
                    ≡ within_budgets
                        (base_decision classified signal)
                        context
                        history
                        budgets
                        fingerprint)))
  unfolding policy_decide blocked blocked_for_approval
  gates h = ground arith

  -- Everything that an allowed decision has behind it.
  pub record IsJustified : Type 0 where
    pub acts : is_stop decided.action ≡ false
    pub no_new_authority : context.new_authority_required ≡ false
    pub approved : needs_approval decided.action ≡ true → context.approval_present ≡ true
    pub suitable : is_reroute decided.action ≡ true → IsSuitable resource context.resource_id
    pub action_budget :
        length (select (prior_same_action context decided.action) history)
        < limit_for budgets decided.action
    pub fingerprint_budget :
        length (select (decided_fingerprint fingerprint) history) < budgets.max_fingerprint_retries

  -- A decision that is allowed acts, needs no new authority, has the approval that its action needs,
  -- reroutes only to another resource that passes every gate, and stays within both budgets.
  pub decide-IsJustified : decided.allowed ≡ true → IsJustified
  decide-IsJustified h =
      let (authority, approval, route) = gates h in
      elim route [
        | inl (reroute, valid, e) ↦
            let (same, acts, prior, retries) =
              within_budgets-allowed fresh context history budgets fingerprint base_stops
                (rw (← e) h) in
            let d : decided ≡ fresh = e ∙ same in
            record {
              acts = rw d acts;
              no_new_authority = authority;
              approved = rw d (λ n. ground arith);
              suitable = λ _. validate_resource-IsSuitable resource context.resource_id valid;
              action_budget = rw d prior;
              fingerprint_budget = retries;
            }
        | inr (stay, e) ↦
            let (same, acts, prior, retries) =
              within_budgets-allowed (base_decision classified signal) context history budgets
                fingerprint base_stops (rw (← e) h) in
            let d : decided ≡ base_decision classified signal = e ∙ same in
            record {
              acts = rw d acts;
              no_new_authority = authority;
              approved = rw d (λ n. ground arith);
              suitable = rw d (λ r. ground arith);
              action_budget = rw d prior;
              fingerprint_budget = retries;
            }
      ]

  base_acts :
      is_stop (base_decision classified signal).action ≡ false
      → (base_decision classified signal).allowed ≡ true
  unfolding base_decision
  base_acts h = ground arith

  -- Only a decision to stop is not allowed.
  pub allowed_of_action : is_stop decided.action ≡ false → decided.allowed ≡ true
  unfolding policy_decide blocked blocked_for_approval
  allowed_of_action h = ground (
    arith,
    within_budgets-acts fresh context history budgets fingerprint base_acts,
    within_budgets-acts (base_decision classified signal) context history budgets fingerprint
        base_acts,
  )

  -- An allowed decision rests on a base that acts.
  pub base_of_allowed :
      decided.allowed ≡ true → is_stop (base_decision classified signal).action ≡ false
  base_of_allowed h =
      let (_, _, route) = gates h in
      elim route [
        | inl (_, _, e) ↦
            (within_budgets-allowed fresh context history budgets fingerprint base_stops
              (rw (← e) h)).1
        | inr (_, e) ↦
            (within_budgets-allowed (base_decision classified signal) context history budgets
              fingerprint base_stops (rw (← e) h)).1
      ]
