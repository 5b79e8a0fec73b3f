-- ===== src/State/Runs.antt =====
-- Sequences of transitions of state.py: how long a job lives, and what an approved job went through.
use lil_tweak.Prelude.{
  ℕ, ◌+◌, ◌<◌, ◌≤◌, ◌≡◌, refl, ◌≢◌, ◌⊎◌, inl, inr, Bool, true, false, ◌&&◌, Option, none, some,
  List, [], ◌∷◌, String, arith, eq_iff, any, length, map, not,
}
use lil_tweak.Prelude.Text.{is_blank}
use lil_tweak.Contracts.{
  JobState, draft, queued, ingesting, planning, executing, testing, collecting, awaiting_approval,
  applying, completed, is_terminal,
}
use lil_tweak.State.{
  Move, moved, invalid_transition, approval_missing, Evidence, same_digest, transition,
}

-- How far a state lies along the pipeline.
abbrev rank : JobState → ℕ
rank draft = 0
rank queued = 1
rank ingesting = 2
rank planning = 3
rank executing = 4
rank testing = 5
rank collecting = 6
rank awaiting_approval = 7
rank applying = 8
rank _ = 9

-- Requests for transitions, each with its evidence; `none` when one of them is refused.
abbrev pub run : JobState → List (JobState × Evidence) → Option JobState
run s [] = some s
run s ((t, e) ∷ rest) = elim (transition s t e) [ moved u ↦ run u rest | _ ↦ none ]

rank-transition : (s t u : JobState) (e : Evidence) → transition s t e ≡ moved u → rank s < rank u
unfolding transition
rank-transition s t u e h = ground arith

transition-target : (s t u : JobState) (e : Evidence) → transition s t e ≡ moved u → u ≡ t
unfolding transition
transition-target s t u e h = ground arith

Move-cases :
    (m : Move)
    → ((t : JobState) × (m ≡ moved t)) ⊎ ((m ≡ invalid_transition) ⊎ (m ≡ approval_missing))
Move-cases (moved t) = inl (t, refl)
Move-cases invalid_transition = inr (inl refl)
Move-cases approval_missing = inr (inr refl)

-- A run that goes through takes its first request to that request's target, and goes on from there.
run-cons :
    (s u t : JobState) (e : Evidence) (rest : List (JobState × Evidence))
    → run s ((t, e) ∷ rest) ≡ some u
    → (transition s t e ≡ moved t) × (run t rest ≡ some u)
run-cons s u t e rest h = elim (Move-cases (transition s t e)) [
  | inl (x, p) ↦ ground (arith, transition-target s t x e)
  | inr (inl p) ↦ ground arith
  | inr (inr p) ↦ ground arith
]

rank-le : (s : JobState) → rank s ≤ 9
rank-le s = ground arith

run-rank :
    (s u : JobState) (steps : List (JobState × Evidence))
    → run s steps ≡ some u
    → length steps + rank s ≤ 9
run-rank s u [] h = omega (arith, rank-le s)
run-rank s u ((t, e) ∷ rest) h =
    let (first, later) = run-cons s u t e rest h in
    omega (arith, rank-transition s t t e first, run-rank t u rest later)

-- However the requests are chosen, `transition` accepts at most nine in a row: no sequence of
-- accepted transitions goes round in a circle.
pub run_is_short :
    (s u : JobState) (steps : List (JobState × Evidence)) → run s steps ≡ some u → length steps ≤ 9
run_is_short s u steps h = omega (arith, run-rank s u steps h)

-- From a terminal state every request is refused, whatever its evidence.
terminal_is_final :
    (s t : JobState) (e : Evidence) → is_terminal s ≡ true → transition s t e ≡ invalid_transition
unfolding transition
terminal_is_final s t e h = ground arith

-- An approval of exactly this proposal, recorded and not used yet.
unfoldable pub is_approved : Evidence → Bool
unfolding same_digest
is_approved e =
    same_digest e.proposal_digest e.approved_digest
    && e.approval_recorded
    && not e.approval_consumed

abbrev is_applying : JobState → Bool
is_applying applying = true
is_applying _ = false

-- A request to apply under an approval.
abbrev pub approves : JobState × Evidence → Bool
approves (t, e) = is_applying t && is_approved e

from_awaiting :
    (t : JobState) (e : Evidence)
    → transition awaiting_approval t e ≡ moved t
    → (approves (t, e) ≡ true) ⊎ ((is_terminal t ≡ true) × (t ≢ completed))
unfolding transition is_approved
from_awaiting t e h = ground arith

terminal_run :
    (t u : JobState) (steps : List (JobState × Evidence))
    → is_terminal t ≡ true
    → run t steps ≡ some u
    → t ≡ u
terminal_run t u [] term h = cc
terminal_run t u ((v, e) ∷ rest) term h = ground (arith, terminal_is_final t v e)

-- A job that waits for approval and later completes went through `applying`, on a request whose
-- approval was of exactly the proposal shown, was recorded, and was not used before.
pub completed_was_approved :
    (steps : List (JobState × Evidence))
    → run awaiting_approval steps ≡ some completed
    → any approves steps ≡ true
completed_was_approved [] h = cc
completed_was_approved ((t, e) ∷ rest) h =
    let (first, later) = run-cons awaiting_approval completed t e rest h in
    elim (from_awaiting t e first) [
      | inl approved ↦ rw approved
      | inr (term, other) ↦ absurd (other (terminal_run t completed rest term later))
    ]

-- Evidence that opens both gates, for a proposal of any digest that is not blank.
abbrev pub full_evidence : String → Evidence
full_evidence d = record {
  proposal_digest = some d;
  has_manifest = true;
  approved_digest = some d;
  approval_recorded = true;
  approval_consumed = false;
}

abbrev pub steps_to_completed : JobState → List JobState
steps_to_completed draft =
    queued ∷ ingesting ∷ planning ∷ executing ∷ testing ∷ collecting ∷ awaiting_approval ∷ applying
    ∷ completed ∷ []
steps_to_completed queued =
    ingesting ∷ planning ∷ executing ∷ testing ∷ collecting ∷ awaiting_approval ∷ applying
    ∷ completed ∷ []
steps_to_completed ingesting =
    planning ∷ executing ∷ testing ∷ collecting ∷ awaiting_approval ∷ applying ∷ completed ∷ []
steps_to_completed planning =
    executing ∷ testing ∷ collecting ∷ awaiting_approval ∷ applying ∷ completed ∷ []
steps_to_completed executing = testing ∷ collecting ∷ awaiting_approval ∷ applying ∷ completed ∷ []
steps_to_completed testing = collecting ∷ awaiting_approval ∷ applying ∷ completed ∷ []
steps_to_completed collecting = awaiting_approval ∷ applying ∷ completed ∷ []
steps_to_completed awaiting_approval = applying ∷ completed ∷ []
steps_to_completed applying = completed ∷ []
steps_to_completed _ = []

-- No state that is not terminal is a dead end: with an approval of a proposal whose digest is not
-- blank, every such job can still be brought to `completed`.
pub can_complete :
    (s : JobState) (d : String)
    → is_terminal s ≡ false
    → is_blank d ≡ false
    → run s (map (λ t. (t, full_evidence d)) (steps_to_completed s)) ≡ some completed
unfolding transition
can_complete s d live given = ground (arith, eq_iff d d)
