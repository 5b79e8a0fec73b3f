-- ===== src/TestWorld/Runner/Verdicts.antt =====
-- What stands behind an attempt that the runner reports as passed.
use lil_tweak.Prelude.{
  ◌≡◌, refl, ◌∙◌, ap, Bool, true, false, String, Option, some, none, sym, Result-cases, List, [],
  ◌∷◌, string_Eq, inl, inr, ◌⊎◌, arith, Bool-cases, Option-cases, Result, ok, err, >>=-eq-ok,
}
use lil_tweak.Json.{Fields, get_field, text, field, end}
use lil_tweak.TestWorld.Model.{TestCheck, World, Attempt, AttemptStatus, Lease, Store, Step}
use lil_tweak.TestWorld.Queries.{get_world}
use lil_tweak.TestWorld.Results.{Report, complete_attempt}
use lil_tweak.TestWorld.Runner.{
  Tools, Raised, raised, entering, continuing, settling, failing, judge, judged, execute, handle,
  settle, run_leased, arrive, previous_of, report_of, apply_previous, elapsed_ms, is_reraised,
  settled, left_over, with_cleanup,
}
use lil_tweak.TestWorld.Runner.Feedback.{judge_feedback, truth_of, attempt_prompt}
use lil_tweak.TestWorld.Runner.Answers.{
  complete-passed, fail-error, feedback-passed, judged-ok, both_passed, answered-eq, reported,
}
use lil_tweak.Orchestrator.Host.{AgentResult}

module _ {W : Type 0} (tools : Tools W) where
  -- One check after another was run, in the workspace that the one before left, and answered that it passed.
  abbrev pub IsChecked : List TestCheck → W → W → Type 0
  IsChecked [] w last = w ≡ last
  IsChecked (check ∷ checks) w last =
      (after : W) × (result : Fields) × (tools.run_check w check ≡ ok (after, result))
      × (truth_of (get_field "passed" result) ≡ some true)
      × IsChecked checks after last

  judge-IsChecked :
      (checks : List TestCheck) (w last : W) (feedback : List Fields)
      → judge tools checks w ≡ ok (last, feedback, true)
      → IsChecked checks w last
  unfolding judge
  judge-IsChecked [] w last feedback h = ground (arith, h)
  judge-IsChecked (check ∷ checks) w last feedback h =
      let ((after, result), ran, h1) = >>=-eq-ok (tools.run_check w check) _ h in
      let ((verdict, passed), valid, h2) = >>=-eq-ok (judged (judge_feedback check result)) _ h1 in
      let ((end_state, rest, all_passed), others, h3) = >>=-eq-ok (judge tools checks after) _ h2 in
      let (same, is_passed, all) =
        both_passed end_state last (verdict ∷ rest) feedback passed all_passed h3 in
      (
        after,
        result,
        ran,
        feedback-passed check result verdict passed (judged-ok _ _ valid) ∙ ap some is_passed,
        judge-IsChecked checks after last rest (others ∙ ap ok (ending same all)),
      )
    where
      ending :
          {e l : W} {fs : List Fields} {q : Bool}
          → e ≡ l
          → q ≡ true
          → ◌≡◌ {A = W × List Fields × Bool} (e, fs, q) (l, fs, true)
      ending {fs = fs} p q = λ i. (p i, fs, q i)

  handle-error :
      (lease : Lease) (e : Raised) (s t : Store) (a : Attempt)
      → handle tools lease e s ≡ (ok a, t)
      → a.status ≡ AttemptStatus.error
  unfolding handle
  handle-error lease e s t a h = elim (Bool-cases (is_reraised e)) [
    | inl again ↦ ground (arith, h, again)
    | inr caught ↦
        fail-error lease (field "code" (text "attempt_runtime_failed") end ∷ [])
          "Attempt runtime failed before a trustworthy judge result was produced." false
          (elapsed_ms tools.attempt_started tools.failed_at) (tools.clock failing)
          (arrive tools failing s) t a (answered-eq _ a t (rw (caught, handle) at h))
  ]

  settled-cases :
      (lease : Lease) (step : Step Attempt) (t : Store) (a : Attempt)
      → settled tools lease step ≡ (ok a, t)
      → (step ≡ (ok a, t)) ⊎ (a.status ≡ AttemptStatus.error)
  settled-cases lease (ok b, u) t a h = inl (ground (arith, h))
  settled-cases lease (err e, u) t a h = inr (handle-error lease (raised e) u t a h)

  settle-passed :
      (lease : Lease) (r : Result Raised Report) (s t : Store) (a : Attempt)
      → settle tools lease r s ≡ (ok a, t)
      → a.status ≡ AttemptStatus.passed
      → (report : Report) × (r ≡ ok report)
        × (report.passed ≡ true)
        × (report.cumulative_patch ≡ a.cumulative_patch)
  unfolding settle
  settle-passed lease (err e) s t a h p = ground (arith, handle-error lease e s t a h, p)
  settle-passed lease (ok report) s t a h p =
      elim (settled-cases lease
        (complete_attempt lease report (tools.clock settling) (arrive tools settling s)) t a h) [
          | inr failed ↦ ground (arith, p, failed)
          | inl done ↦
              let (passes, same) =
                complete-passed lease report (tools.clock settling) (arrive tools settling s) t a
                  done p in
              (report, refl, passes, same)
        ]

  -- The agent worked in a workspace that was prepared for the attempt, the checks of the world ran in it after the agent and passed, and it was cleaned up after them.
  pub record IsJudged (world : World) (attempt : Attempt) (patch : String) : Type 0 where
    pub prepared : W
    pub earlier : Option Attempt
    pub patched : W
    pub worked : W
    pub result : AgentResult
    pub checked : W
    pub set_up : tools.prepare_workspace world attempt ≡ ok prepared
    pub continued : apply_previous tools prepared earlier ≡ ok patched
    pub ran : tools.run_agent patched (attempt_prompt world earlier) ≡ ok (worked, result)
    pub captured : tools.capture_cumulative_patch worked ≡ ok patch
    pub judged_all : IsChecked world.checks worked checked
    pub cleaned : tools.cleanup_workspace checked ≡ ok tt

  execute-IsJudged :
      (world : World) (attempt : Attempt) (previous : Result Raised (Option Attempt))
      (report : Report)
      → execute tools world attempt previous ≡ ok report
      → report.passed ≡ true
      → IsJudged world attempt report.cumulative_patch
  unfolding execute
  execute-IsJudged world attempt previous report h p =
      let (prepared, set_up, h1) = >>=-eq-ok (tools.prepare_workspace world attempt) _ h in
      let (earlier, _, h2) = >>=-eq-ok previous _ h1 in
      let (patched, continued, h3) = >>=-eq-ok (apply_previous tools prepared earlier) _ h2 in
      let ((worked, result), ran, h4) =
        >>=-eq-ok (tools.run_agent patched (attempt_prompt world earlier)) _ h3 in
      let (patch, captured, h5) = >>=-eq-ok (tools.capture_cumulative_patch worked) _ h4 in
      let ((checked, feedback, all_passed), judged, h6) =
        >>=-eq-ok (judge tools world.checks worked) _ h5 in
      let (_, cleaned, h7) = >>=-eq-ok (tools.cleanup_workspace checked) _ h6 in
      let made = reported (report_of tools result patch feedback all_passed) report h7 in
      let all : all_passed ≡ true = ap (λ (r : Report). r.passed) made ∙ p in
      record {
        prepared = prepared;
        earlier = earlier;
        patched = patched;
        worked = worked;
        result = result;
        checked = checked;
        set_up = set_up;
        continued = continued;
        ran = ran;
        captured = captured ∙ ap ok (ap (λ (r : Report). r.cumulative_patch) made);
        judged_all =
            judge-IsChecked world.checks worked checked feedback
              (judged ∙ ap ok (λ i. (checked, feedback, all i)));
        cleaned = cleaned;
      }

  with_cleanup-eq {ℓ} :
      {A : Type ℓ} (left : Option W) (answer : A) → with_cleanup tools left answer ≡ answer
  unfolding with_cleanup
  with_cleanup-eq none answer = refl
  with_cleanup-eq (some w) answer = elim (Result-cases (tools.cleanup_workspace w)) [
    | inl (_, p) ↦ rw (p, with_cleanup) refl
    | inr (_, p) ↦ rw (p, with_cleanup) refl
  ]

  pub run_leased-IsJudged :
      (attempt : Attempt) (owner : String) (lease : Lease) (s t : Store) (a : Attempt)
      → run_leased tools attempt owner lease s ≡ (ok a, t)
      → a.status ≡ AttemptStatus.passed
      → (world : World) × (get_world attempt.world_id owner (arrive tools entering s) ≡ some world)
        × IsJudged world attempt a.cumulative_patch
  unfolding run_leased
  run_leased-IsJudged attempt owner lease s t a h p =
      elim (Option-cases (get_world attempt.world_id owner (arrive tools entering s))) [
        | inl gone ↦ ground (arith, h, gone)
        | inr (world, found) ↦
            let there = arrive tools continuing (arrive tools entering s) in
            let outcome = execute tools world attempt (previous_of tools attempt owner there) in
            let settles : settle tools lease outcome there ≡ (ok a, t) =
              sym (
                with_cleanup-eq (left_over tools world attempt outcome)
                  (settle tools lease outcome there))
              ∙ (rw (found, run_leased) at h) in
            let (report, ran, passes, same) = settle-passed lease outcome there t a settles p in
            (
              world,
              found,
              rw same at (
                  execute-IsJudged world attempt (previous_of tools attempt owner there) report ran
                    passes),
            )
      ]
