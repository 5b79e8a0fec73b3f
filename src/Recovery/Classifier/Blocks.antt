-- ===== src/Recovery/Classifier/Blocks.antt =====
-- Which failures classifier.py rules out from automatic recovery, and that policy.py keeps to it.
use lil_tweak.Prelude.{
  ◌≡◌, refl, inl, inr, Bool, true, false, String, Option, List, arith, Bool-cases, ap, ◌||◌,
}
use lil_tweak.Recovery.Vocabulary.{FailureCode, invalid_request, block, is_stop}
use lil_tweak.Recovery.Contracts.{
  FailureSignal, SignalCode, known, other, RecoveryContext, RecoveryBudgets, RecoveryHistoryEntry,
  ResourceRecoveryDecision, ClassifiedFailure,
}
use lil_tweak.Recovery.Classifier.{classify, classify_code, dispatch_code}
use lil_tweak.Recovery.Policy.{policy_decide, base_decision}
use lil_tweak.Recovery.Policy.Safety.{base_of_allowed}

code-prohibited :
    (c : FailureCode) (s : FailureSignal)
    → (classify_code c s).automatic_recovery_prohibited ≡ true
    → (classify_code c s).preferred_action ≡ block
unfolding classify_code
code-prohibited invalid_request s h = ground arith
code-prohibited _ s h = ground arith

-- A signal of a broken integrity or of a security matter
abbrev pub is_sensitive : FailureSignal → Bool
is_sensitive s = s.integrity_failure || s.security_sensitive

code-sensitive :
    (c : FailureCode) (s : FailureSignal)
    → is_sensitive s ≡ true
    → (classify_code c s).automatic_recovery_prohibited ≡ true
unfolding classify_code
code-sensitive invalid_request s h = ground arith
code-sensitive _ s h = ground arith

classify-prohibited :
    (s : FailureSignal)
    → (classify s).automatic_recovery_prohibited ≡ true
    → (classify s).preferred_action ≡ block
unfolding classify
classify-prohibited s h = go s.code h
  where
    go :
        (c : SignalCode)
        → (dispatch_code c s).automatic_recovery_prohibited ≡ true
        → (dispatch_code c s).preferred_action ≡ block
    go (known c) h = code-prohibited c s h
    go (other raw) h = refl

classify-sensitive :
    (s : FailureSignal) → is_sensitive s ≡ true → (classify s).automatic_recovery_prohibited ≡ true
unfolding classify
classify-sensitive s h = go s.code
  where
    go : (c : SignalCode) → (dispatch_code c s).automatic_recovery_prohibited ≡ true
    go (known c) = code-sensitive c s h
    go (other raw) = refl

base-prohibited :
    (c : ClassifiedFailure) (s : FailureSignal)
    → c.automatic_recovery_prohibited ≡ true
    → c.preferred_action ≡ block
    → (base_decision c s).action ≡ block
unfolding base_decision
base-prohibited c s p b = ground arith

module _ (s : FailureSignal) (context : RecoveryContext) (history : List RecoveryHistoryEntry)
    (budgets : RecoveryBudgets) (fingerprint : String)
    (resource : Option ResourceRecoveryDecision) where
  -- A failure whose classification prohibits automatic recovery is never allowed to recover, also
  -- after a partial mutation, whatever the context, the history, the budgets and the resource.
  pub prohibited_never_allowed :
      (classify s).automatic_recovery_prohibited ≡ true
      → (policy_decide (classify s) s context history budgets fingerprint resource).allowed ≡ false
  prohibited_never_allowed p =
      elim (Bool-cases
        (policy_decide (classify s) s context history budgets fingerprint resource).allowed) [
          | inr no_recovery ↦ no_recovery
          | inl allowed ↦ cc (
            base_of_allowed (classify s) s context history budgets fingerprint resource allowed,
            ap is_stop (base-prohibited (classify s) s p (classify-prohibited s p)),
          )
        ]

  -- A failure that is reported as a breach of integrity or as sensitive for security is never
  -- allowed to recover automatically, whatever its code.
  pub sensitive_never_allowed :
      is_sensitive s ≡ true
      → (policy_decide (classify s) s context history budgets fingerprint resource).allowed ≡ false
  sensitive_never_allowed h = prohibited_never_allowed (classify-sensitive s h)
