-- ===== src/Recovery/Controller/Outcomes.antt =====
-- What `record_outcome` of controller.py accepts: one outcome a decision.
use lil_tweak.Prelude.{
  ◌≤◌, ◌≡◌, refl, sym, ◌∙◌, ◌⊎◌, inl, inr, Bool, false, not, ◌&&◌, String, List, [], ◌∷◌, ◌++◌,
  ◌==◌, string_Eq, arith, eq_iff, any, select, length, Result-cases, Bool-cases,
}
use lil_tweak.Recovery.Contracts.{
  RecoveryDecision, RecoveryOutcome, RecoveryHistoryEntry, RecoveryContext, RecoveryBudgets,
}
use lil_tweak.Recovery.Fingerprints.{Digests}
use lil_tweak.Recovery.Policy.{is_decision}
use lil_tweak.Recovery.History.{History, entries_of, append_entry, has_outcome}
use lil_tweak.Recovery.History.Appends.{entries_of-append_entry, append_outcome-after}
use lil_tweak.Recovery.Controller.{checked_outcome, record_outcome}
use lil_tweak.Recovery.Controller.Counts.{count-snoc}
use lil_tweak.Recovery.Controller.Decisions.{decide-after}
use lil_tweak.Recovery.Controller.Budgets.{Event, decide_on, record_on, step, after}

-- An outcome entry that carries this decision digest.
abbrev pub outcome_with : String → RecoveryHistoryEntry → Bool
outcome_with digest e = e.decision_digest == digest && not (is_decision e)

none_selected :
    (test : RecoveryHistoryEntry → Bool) (es : List RecoveryHistoryEntry)
    → any test es ≡ false
    → length (select test es) ≡ 0
none_selected test [] h = refl
none_selected test (e ∷ es) h = ground (arith, none_selected test es)

module _ (digests : Digests) (budgets : RecoveryBudgets) where
  abbrev Once : String → History → String → Type 0
  Once o h digest = length (select (outcome_with digest) (entries_of o h)) ≤ 1

  appended-Once :
      (owner o digest : String) (e : RecoveryHistoryEntry) (h : History)
      → Once o h digest
      → length (select (outcome_with digest) (entries_of owner h ++ e ∷ [])) ≤ 1
      → Once o (append_entry owner e h) digest
  appended-Once owner o digest e h w more = elim (Bool-cases (owner == o)) [
    | inl same ↦
        rw (entries_of-append_entry owner o e h, same) (rw ((eq_iff owner o).0 same) at more)
    | inr other ↦ rw (entries_of-append_entry owner o e h, other) w
  ]

  -- A recorded outcome is the first with its decision's digest.
  first_outcome :
      (d : RecoveryDecision) (digest : String) (e : RecoveryHistoryEntry) (h : History)
      → has_outcome d h ≡ false
      → e.decision_digest ≡ d.decision_digest
      → Once d.owner_id h digest
      → length (select (outcome_with digest) (entries_of d.owner_id h ++ e ∷ [])) ≤ 1
  unfolding has_outcome
  first_outcome d digest e h new same w = elim (Bool-cases (e.decision_digest == digest)) [
    | inl hit ↦
        let at_digest : d.decision_digest ≡ digest =
          sym same ∙ (eq_iff e.decision_digest digest).0 hit in
        ground (
          arith,
          count-snoc (outcome_with digest) (entries_of d.owner_id h) e,
          none_selected (outcome_with digest) (entries_of d.owner_id h) (rw at_digest at new),
        )
    | inr miss ↦ ground (arith, count-snoc (outcome_with digest) (entries_of d.owner_id h) e)
  ]

  -- Both halves of `record_outcome`: nothing, or an outcome where none was.
  recorded :
      (d : RecoveryDecision) (context : RecoveryContext) (x : RecoveryOutcome) (h : History)
      → ((record_outcome digests d context x h).1 ≡ h)
        ⊎ ((e : RecoveryHistoryEntry) × ((record_outcome digests d context x h).1
              ≡ append_entry d.owner_id e h)
            × (has_outcome d h ≡ false)
            × (e.decision_digest ≡ d.decision_digest))
  unfolding record_outcome
  recorded d context x h = elim (Result-cases (checked_outcome digests d context x h)) [
    | inr (code, p) ↦ inl (rw (p, record_outcome))
    | inl (n, p) ↦ elim (append_outcome-after d n h) [
      | inl same ↦ inl (rw (p, record_outcome) same)
      | inr (e, more, _, _, new, digest) ↦ inr (e, rw (p, record_outcome) more, new, digest)
    ]
  ]

  step-Once :
      (h : History) (event : Event) (o digest : String)
      → ((p : String) → Once p h digest)
      → Once o (step digests budgets h event) digest
  step-Once h (decide_on signal context resource) o digest w =
      elim (decide-after digests budgets signal context resource h) [
        | inl same ↦ rw same (w o)
        | inr (e, more, _, decision) ↦ rw more (
            appended-Once context.owner_id o digest e h (w o) (
              ground (
                arith,
                count-snoc (outcome_with digest) (entries_of context.owner_id h) e,
                w context.owner_id,
              )))
      ]
  step-Once h (record_on d context x) o digest w = elim (recorded d context x h) [
    | inl same ↦ rw same (w o)
    | inr (e, more, new, same) ↦ rw more (
        appended-Once d.owner_id o digest e h (w o)
          (first_outcome d digest e h new same (w d.owner_id)))
  ]

  after-Once :
      (h : History) (events : List Event) (digest : String)
      → ((p : String) → Once p h digest)
      → (o : String) → Once o (after digests budgets h events) digest
  after-Once h [] digest w o = w o
  after-Once h (e ∷ events) digest w o =
      after-Once (step digests budgets h e) events digest (λ p. step-Once h e p digest w) o

  -- Whatever is decided and recorded, from an empty history on: an owner's history holds at most one
  -- outcome for each decision digest.
  pub one_outcome_each :
      (events : List Event) (o digest : String)
      → length (select (outcome_with digest) (entries_of o (after digests budgets [] events))) ≤ 1
  unfolding entries_of
  one_outcome_each events o digest = after-Once [] events digest (λ p. omega arith) o
