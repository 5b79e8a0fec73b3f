-- ===== src/Recovery/Controller/Progress.antt =====
-- What counts as progress in `_normalize_progress` of controller.py.
use lil_tweak.Prelude.{
  ◌≡◌, ◌≢◌, refl, sym, ◌⊎◌, inl, inr, true, false, not, ◌&&◌, String, Option, some, none, List, [],
  ◌∷◌, ◌==◌, string_Eq, option_Eq, ok, err, arith, eq_iff, option_beq_iff, Bool-cases, Option-cases,
  beq_refl, ◌∙◌,
}
use lil_tweak.Recovery.Vocabulary.{RecoveryAction, reroute_resource, is_succeeded}
use lil_tweak.Recovery.Contracts.{RecoveryDecision, RecoveryOutcome, RecoveryHistoryEntry}
use lil_tweak.Recovery.Policy.{is_reroute}
use lil_tweak.Recovery.Controller.{
  contains, is_subset, is_empty, differs, checks_reduced, objective_progress, normalize_progress,
}

-- The text stands in the list.
abbrev pub IsIn : String → List String → Type 0
IsIn v [] = ⊥
IsIn v (x ∷ xs) = (x ≡ v) ⊎ IsIn v xs

contains-IsIn : (xs : List String) (v : String) → contains xs v ≡ true → IsIn v xs
contains-IsIn [] v h = cc h
contains-IsIn (x ∷ xs) v h = elim (Bool-cases (x == v)) [
  | inl hit ↦ inl ((eq_iff x v).0 hit)
  | inr miss ↦ inr (contains-IsIn xs v (ground (arith, h, miss)))
]

IsIn-contains : (xs : List String) (v : String) → IsIn v xs → contains xs v ≡ true
IsIn-contains [] v none_in = absurd none_in
IsIn-contains (x ∷ xs) v (inl hit) = ground (arith, (eq_iff x v).1 hit)
IsIn-contains (x ∷ xs) v (inr more) = ground (arith, IsIn-contains xs v more)

-- A member of a subset.
subset-IsIn :
    (small large : List String) (v : String)
    → is_subset small large ≡ true
    → IsIn v small
    → IsIn v large
subset-IsIn [] large v h none_in = absurd none_in
subset-IsIn (x ∷ xs) large v h (inl hit) =
    let within : contains large x ≡ true = ground (arith, h) in
    contains-IsIn large v (rw hit at within)
subset-IsIn (x ∷ xs) large v h (inr more) = subset-IsIn xs large v (ground (arith, h)) more

-- A member that is missing, where the one list is no subset of the other.
missing :
    (small large : List String)
    → is_subset small large ≡ false
    → (v : String) × IsIn v small × (IsIn v large → ⊥)
missing [] large h = cc h
missing (x ∷ xs) large h = elim (Bool-cases (contains large x)) [
  | inl there ↦
      let (v, inside, outside) = missing xs large (ground (arith, h, there)) in
      (v, inr inside, outside)
  | inr gone ↦ (x, inl refl, λ there. cc (gone, IsIn-contains large x there))
]

all-subset :
    (small large : List String)
    → ((v : String) → IsIn v small → IsIn v large)
    → is_subset small large ≡ true
all-subset small large within = elim (Bool-cases (is_subset small large)) [
  | inl holds ↦ holds
  | inr fails ↦
      let (v, inside, outside) = missing small large fails in absurd (outside (within v inside))
]

-- The facts that show progress: some of the checks that failed before still fail, no other check does, and one of them does no longer; or the outcome has a new plan; or it has a new candidate; or a rerouting has reached its target.
pub data Progress (d : RecoveryDecision) (issued : RecoveryHistoryEntry) (o : RecoveryOutcome)
    : Type 0 where
  fewer_checks :
      (left gone : String)
      → IsIn left o.remaining_failed_checks
      → ((v : String) → IsIn v o.remaining_failed_checks → IsIn v issued.remaining_failed_checks)
      → IsIn gone issued.remaining_failed_checks
      → (IsIn gone o.remaining_failed_checks → ⊥)
      → Progress d issued o
  new_plan :
      (plan : String)
      → o.resulting_plan_digest ≡ some plan
      → d.plan_digest ≢ some plan
      → Progress d issued o
  new_candidate :
      (candidate : String)
      → o.resulting_candidate_digest ≡ some candidate
      → d.candidate_digest ≢ some candidate
      → Progress d issued o
  rerouted :
      (target : String)
      → d.action ≡ reroute_resource
      → d.target_resource_id ≡ some target
      → o.resulting_resource_id ≡ some target
      → Progress d issued o

differs-new :
    (a b : Option String) → differs a b ≡ true → (v : String) × (a ≡ some v) × (b ≢ some v)
differs-new none b h = cc h
differs-new (some v) b h = (v, refl, λ same. ground (arith, h, (option_beq_iff (some v) b).1, same))

new-differs : (a b : Option String) (v : String) → a ≡ some v → b ≢ some v → differs a b ≡ true
new-differs a b v is_some other = rw is_some (elim (Bool-cases (some v == b)) [
  | inl same ↦ absurd (other (sym ((option_beq_iff (some v) b).0 same)))
  | inr differ ↦ rw differ refl
])

-- Fewer checks fail, as the code tests it.
reduced-Progress :
    (d : RecoveryDecision) (issued : RecoveryHistoryEntry) (o : RecoveryOutcome)
    → checks_reduced issued.remaining_failed_checks o.remaining_failed_checks ≡ true
    → Progress d issued o
unfolding checks_reduced
reduced-Progress d issued o h =
    let some_left : is_empty o.remaining_failed_checks ≡ false = ground (arith, h) in
    let within : is_subset o.remaining_failed_checks issued.remaining_failed_checks ≡ true =
      ground (arith, h) in
    let proper : is_subset issued.remaining_failed_checks o.remaining_failed_checks ≡ false =
      ground (arith, h) in
    let (left, still) = some_member o.remaining_failed_checks some_left in
    let (gone, before, now) =
      missing issued.remaining_failed_checks o.remaining_failed_checks proper in
    fewer_checks left gone still
      (λ v. subset-IsIn o.remaining_failed_checks issued.remaining_failed_checks v within) before
      now
  where
    some_member : (xs : List String) → is_empty xs ≡ false → (v : String) × IsIn v xs
    some_member [] e = cc e
    some_member (x ∷ xs) e = (x, inl refl)

member-is_empty : (xs : List String) (v : String) → IsIn v xs → is_empty xs ≡ false
member-is_empty [] v none_in = absurd none_in
member-is_empty (x ∷ xs) v h = refl

fewer-reduced :
    (initial remaining : List String) (left gone : String)
    → IsIn left remaining
    → ((v : String) → IsIn v remaining → IsIn v initial)
    → IsIn gone initial
    → (IsIn gone remaining → ⊥)
    → checks_reduced initial remaining ≡ true
unfolding checks_reduced
fewer-reduced initial remaining left gone still within before now =
    elim (Bool-cases (is_subset initial remaining)) [
      | inl all_left ↦ absurd (now (subset-IsIn initial remaining gone all_left before))
      | inr proper ↦ ground (
        arith,
        proper,
        all-subset remaining initial within,
        member-is_empty initial gone before,
        member-is_empty remaining left still,
      )
    ]

is_reroute-eq : (a : RecoveryAction) → is_reroute a ≡ true → a ≡ reroute_resource
is_reroute-eq a h = ground (arith, h)

rerouted-Progress :
    (d : RecoveryDecision) (issued : RecoveryHistoryEntry) (o : RecoveryOutcome)
    → (is_reroute d.action
        && not (d.target_resource_id == none)
        && o.resulting_resource_id == d.target_resource_id)
      ≡ true
    → Progress d issued o
rerouted-Progress d issued o h = elim (Option-cases d.target_resource_id) [
  | inl aimless ↦ ground (arith, h, aimless)
  | inr (target, aim) ↦
      let reached : (o.resulting_resource_id == d.target_resource_id) ≡ true = ground (arith, h) in
      rerouted target (is_reroute-eq d.action (ground (arith, h))) aim
        ((option_beq_iff o.resulting_resource_id d.target_resource_id).0 reached ∙ aim)
]

objective-Progress :
    (d : RecoveryDecision) (issued : RecoveryHistoryEntry) (o : RecoveryOutcome)
    → objective_progress d issued o ≡ true
    → Progress d issued o
unfolding objective_progress
objective-Progress d issued o h =
    elim (Bool-cases (checks_reduced issued.remaining_failed_checks o.remaining_failed_checks)) [
      | inl reduced ↦ reduced-Progress d issued o reduced
      | inr r ↦ elim (Bool-cases (differs o.resulting_plan_digest d.plan_digest)) [
        | inl plan ↦
            let (v, is_some, new) = differs-new o.resulting_plan_digest d.plan_digest plan in
            new_plan v is_some new
        | inr p ↦ elim (Bool-cases (differs o.resulting_candidate_digest d.candidate_digest)) [
          | inl candidate ↦
              let (v, is_some, new) =
                differs-new o.resulting_candidate_digest d.candidate_digest candidate in
              new_candidate v is_some new
          | inr c ↦ rerouted-Progress d issued o (ground (arith, h, r, p, c))
        ]
      ]
    ]

Progress-objective :
    (d : RecoveryDecision) (issued : RecoveryHistoryEntry) (o : RecoveryOutcome)
    → Progress d issued o
    → objective_progress d issued o ≡ true
unfolding objective_progress
Progress-objective d issued o (fewer_checks left gone still within before now) = ground (
  arith,
  fewer-reduced issued.remaining_failed_checks o.remaining_failed_checks left gone still within
      before now,
)
Progress-objective d issued o (new_plan v is_some new) =
    ground (arith, new-differs o.resulting_plan_digest d.plan_digest v is_some new)
Progress-objective d issued o (new_candidate v is_some new) =
    ground (arith, new-differs o.resulting_candidate_digest d.candidate_digest v is_some new)
Progress-objective d issued o (rerouted target reroutes aim reached) =
    ground (arith, reroutes, aim, reached, beq_refl target)

-- For an outcome that is no success, either the facts show progress, and the outcome is recorded with progress, whatever it claims; or they show none, and then it is refused if it claims progress, and is recorded as it was reported, without progress, if not.
pub progress_is_earned :
    (d : RecoveryDecision) (issued : RecoveryHistoryEntry) (o : RecoveryOutcome)
    → is_succeeded o.status ≡ false
    → (Progress d issued o × (normalize_progress d issued o ≡ ok (record o { progress = true })))
      ⊎ (¬ Progress d issued o
          × (((o.progress ≡ true)
                × (normalize_progress d issued o ≡ err "unsupported_recovery_progress"))
              ⊎ ((o.progress ≡ false) × (normalize_progress d issued o ≡ ok o))))
unfolding normalize_progress
progress_is_earned d issued o unsuccessful = elim (Bool-cases (objective_progress d issued o)) [
  | inl shown ↦ inl (objective-Progress d issued o shown, ground (arith, unsuccessful, shown))
  | inr unshown ↦
      inr
        (λ p. cc (unshown, Progress-objective d issued o p), ground (arith, unsuccessful, unshown))
]
