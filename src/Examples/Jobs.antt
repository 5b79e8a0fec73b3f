-- ===== src/Examples/Jobs.antt =====
-- A job of state.py that is approved and applied, and one that is cancelled.
use lil_tweak.Prelude.{◌≤◌, ◌≡◌, refl, true, some, List, [], ◌∷◌, any, length, map}
use lil_tweak.Contracts.{JobState, draft, awaiting_approval, applying, completed}
use lil_tweak.State.{Evidence, transition}
use lil_tweak.State.Runs.{
  run, run_is_short, approves, completed_was_approved, full_evidence, steps_to_completed,
  can_complete,
}

abbrev approved_steps : List (JobState × Evidence)
approved_steps = (applying, full_evidence "abc") ∷ (completed, full_evidence "abc") ∷ []

completed_was_approved_example : any approves approved_steps ≡ true
unfolding transition
completed_was_approved_example = completed_was_approved approved_steps refl

run_is_short_example : length approved_steps ≤ 9
unfolding transition
run_is_short_example = run_is_short awaiting_approval completed approved_steps refl

can_complete_example :
    run draft (map (λ t. (t, full_evidence "abc")) (steps_to_completed draft)) ≡ some completed
can_complete_example = can_complete draft "abc" refl refl
