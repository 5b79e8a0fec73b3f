-- ===== src/TestWorld/Runner.antt =====
-- core/lil_tweak/test_world_runner.py: `run_attempt` of `TestWorldAttemptRunner`, which carries out one
-- attempt with its callbacks and stores what the checks of the judge say.
pub mod Feedback
pub mod Answers
pub mod Verdicts
pub mod Passed
use lil_tweak.Prelude.{
  ℕ, ◌-◌, Bool, true, false, not, ◌&&◌, ◌||◌, String, Option, some, none, List, [], ◌∷◌, ltb, leb,
  nat_eq, if◌then◌else◌, ◌==◌, string_Eq, ◌⊎◌, inl, inr, Result, ok, err, ◌>>=◌, ◌>>◌,
}
use lil_tweak.Prelude.Text.{is_blank}
use lil_tweak.Json.{Fields, text, field, end}
use lil_tweak.TestWorld.Model.{
  conflict, not_found, limit_reached, Error, Outcome, TestCheck, World, Attempt, AttemptStatus,
  AttemptMode, Lease, Store, Step, is_running, is_active,
}
use lil_tweak.TestWorld.Queries.{get_attempt, get_world}
use lil_tweak.TestWorld.Admission.{Hashes}
use lil_tweak.TestWorld.Leases.{claim_attempt, release_attempt}
use lil_tweak.TestWorld.Results.{Report, complete_attempt, fail_attempt}
use lil_tweak.TestWorld.Steps.Runs.{Call, run}
use lil_tweak.TestWorld.Runner.Feedback.{attempt_prompt, judge_feedback}
use lil_tweak.Orchestrator.Host.{AgentResult}

-- An exception of the store, or any other `Exception`.
pub data Raised : Type 0 where
  raised : Error → Raised
  crashed : Raised

-- `except (TestWorldConflict, TestWorldNotFound)`
abbrev pub is_reraised : Raised → Bool
is_reraised (raised (conflict _)) = true
is_reraised (raised (not_found _)) = true
is_reraised _ = false

-- The points of `run_attempt` at which the store is called.
pub data Point : Type 0 where
  finding claiming looking entering leaving continuing settling failing : Point

-- The callbacks of the runner: a callback that works in a workspace returns the workspace that it
-- leaves. Other threads' calls of the store come before each of its own.
pub record Tools (W : Type 0) : Type 0 where
  pub hashes : Hashes
  pub worker_id : String
  pub lease_seconds : ℕ
  pub prepare_workspace : World → Attempt → Result Raised W
  pub apply_previous_patch : W → String → Result Raised W
  pub run_agent : W → String → Result Raised (W × AgentResult)
  pub capture_cumulative_patch : W → Result Raised String
  pub run_check : W → TestCheck → Result Raised (W × Fields)
  pub cleanup_workspace : W → Result Raised (Unit {0})
  pub others : Point → List Call
  pub clock : Point → ℕ
  -- `self.monotonic()` in milliseconds: at the start of the attempt and of the judge, at the end of
  -- both, and when the attempt has failed.
  pub attempt_started : ℕ
  pub judge_started : ℕ
  pub judge_finished : ℕ
  pub attempt_finished : ℕ
  pub failed_at : ℕ

abbrev pub elapsed_ms : ℕ → ℕ → ℕ
elapsed_ms start finish = if ltb 86400000 (finish - start) then 86400000 else finish - start

abbrev pub answered : {A : Type 0} → Outcome A → Result Raised A
answered (ok a) = ok a
answered (err e) = err (raised e)

abbrev pub answered_step : Step Attempt → Result Raised Attempt × Store
answered_step (answer, after) = (answered answer, after)

-- A `ValueError` of `_judge_feedback`.
abbrev pub judged : {A : Type 0} → Result String A → Result Raised A
judged (ok v) = ok v
judged (err _) = err crashed

module _ {W : Type 0} (tools : Tools W) where
  abbrev pub arrive : Point → Store → Store
  arrive p s = run tools.hashes (tools.others p) s

  -- The loop over `world.checks`: the workspace, the feedback, and whether every check passed.
  unfoldable pub judge : List TestCheck → W → Result Raised (W × List Fields × Bool)
  unfolding judge_feedback
  judge [] w = ok (w, [], true)
  judge (check ∷ checks) w = do
    (after, result) ← tools.run_check w check
    (verdict, passed) ← judged (judge_feedback check result)
    (last, feedback, all_passed) ← judge checks after
    ok (last, verdict ∷ feedback, passed && all_passed)

  unfoldable pub apply_previous : W → Option Attempt → Result Raised W
  apply_previous w none = ok w
  apply_previous w (some previous) =
      if is_blank previous.cumulative_patch
      then ok w
      else tools.apply_previous_patch w previous.cumulative_patch

  -- The previous attempt that a retry goes on from.
  unfoldable pub previous_of : Attempt → String → Store → Result Raised (Option Attempt)
  previous_of attempt owner s = elim attempt.mode [
    | AttemptMode.fresh ↦ ok none
    | AttemptMode.retry ↦ elim attempt.previous_attempt_id [
      | none ↦ ok none
      | some id ↦ elim (get_attempt id owner s) [
        | none ↦ err (raised (not_found "previous attempt not found"))
        | some previous ↦ ok (some previous)
      ]
    ]
  ]

  -- The arguments of `complete_attempt`, its lease apart.
  abbrev pub report_of : AgentResult → String → List Fields → Bool → Report
  report_of result patch feedback all_passed = record {
    passed = all_passed;
    feedback = feedback;
    cumulative_patch = patch;
    plan = result.plan;
    summary = result.summary;
    tests = result.tests;
    model_calls = result.model_calls;
    input_tokens = result.input_tokens;
    output_tokens = result.output_tokens;
    total_tokens = result.total_tokens;
    duration_ms = elapsed_ms tools.attempt_started tools.attempt_finished;
    judge_duration_ms = elapsed_ms tools.judge_started tools.judge_finished;
  }

  -- The body of the `try`, up to the call of `complete_attempt`.
  unfoldable pub execute : World → Attempt → Result Raised (Option Attempt) → Result Raised Report
  unfolding judge apply_previous attempt_prompt
  execute world attempt previous = do
    prepared ← tools.prepare_workspace world attempt
    earlier ← previous
    patched ← apply_previous prepared earlier
    (worked, result) ← tools.run_agent patched (attempt_prompt world earlier)
    patch ← tools.capture_cumulative_patch worked
    (checked, feedback, all_passed) ← judge world.checks worked
    tools.cleanup_workspace checked
    ok (report_of result patch feedback all_passed)

  -- The `except` clauses. The store has `fail_attempt`.
  unfoldable pub handle : Lease → Raised → Store → Result Raised Attempt × Store
  handle lease e s =
      if is_reraised e
      then (err e, s)
      else answered_step (
          fail_attempt lease (field "code" (text "attempt_runtime_failed") end ∷ [])
            "Attempt runtime failed before a trustworthy judge result was produced." false
            (elapsed_ms tools.attempt_started tools.failed_at) (tools.clock failing)
            (arrive failing s))

  -- What `complete_attempt` raises is caught as well.
  abbrev pub settled : Lease → Step Attempt → Result Raised Attempt × Store
  settled lease (ok attempt, after) = (ok attempt, after)
  settled lease (err e, after) = handle lease (raised e) after

  -- The report is stored, inside the `try`.
  unfoldable pub settle : Lease → Result Raised Report → Store → Result Raised Attempt × Store
  unfolding handle
  settle lease (err e) s = handle lease e s
  settle lease (ok report) s =
      settled lease (complete_attempt lease report (tools.clock settling) (arrive settling s))

  -- The workspace that the `finally` clause finds: one was prepared, and it was not cleaned up.
  -- Callbacks work in it in place, so it is named as it was prepared.
  unfoldable pub left_over : World → Attempt → Result Raised Report → Option W
  left_over world attempt (ok report) = none
  left_over world attempt (err e) = elim (tools.prepare_workspace world attempt) [
    | ok w ↦ some w
    | err _ ↦ none
  ]

  -- The `finally` clause: what the cleanup raises is dropped.
  unfoldable pub with_cleanup {ℓ} : {A : Type ℓ} → Option W → A → A
  with_cleanup none answer = answer
  with_cleanup (some w) answer = elim (tools.cleanup_workspace w) [ ok _ ↦ answer | err _ ↦ answer ]

  -- From the lookup of the world on.
  unfoldable pub run_leased : Attempt → String → Lease → Store → Result Raised Attempt × Store
  unfolding settle execute previous_of left_over with_cleanup
  run_leased attempt owner lease s =
      let here = arrive entering s in
      elim (get_world attempt.world_id owner here) [
        | none ↦ (
          err (raised (not_found "world not found")),
          release_attempt lease (arrive leaving here),
        )
        | some world ↦
            let there = arrive continuing here in
            let report = execute world attempt (previous_of attempt owner there) in
            with_cleanup (left_over world attempt report) (settle lease report there)
      ]

  -- The test of a lease that the scheduler claimed before.
  unfoldable pub is_preclaimed : Lease → Attempt → String → Bool
  is_preclaimed lease attempt owner =
      lease.attempt_id == attempt.id
      && lease.world_id == attempt.world_id
      && lease.owner_id == owner
      && lease.worker_id == tools.worker_id
      && not (nat_eq lease.generation 0)
      && is_running attempt.status

  -- An attempt that cannot be claimed: it is over, or another worker has it.
  unfoldable pub unclaimed : String → String → Store → Result Raised Attempt × Store
  unclaimed id owner s =
      let here = arrive looking s in
      elim (get_attempt id owner here) [
        | none ↦ (err (raised (not_found "attempt not found")), here)
        | some current ↦
            if not (is_active current.status)
            then (ok current, here)
            else (err (raised (conflict "attempt is already claimed")), here)
      ]

  unfoldable pub run_attempt :
      String → String → Option Lease → Store → Result Raised Attempt × Store
  unfolding run_leased unclaimed is_preclaimed
  run_attempt id owner given s =
      let here = arrive finding s in
      elim (get_attempt id owner here) [
        | none ↦ (err (raised (not_found "attempt not found")), here)
        | some attempt ↦ elim given [
          | some lease ↦
              if is_preclaimed lease attempt owner
              then run_leased attempt owner lease here
              else (err (raised (conflict "invalid preclaimed attempt lease")), here)
          | none ↦
              let (claimed, after) =
                claim_attempt id tools.worker_id tools.lease_seconds (tools.clock claiming)
                  (arrive claiming here) in
              elim claimed [
                | err e ↦ (err (raised e), after)
                | ok none ↦ unclaimed id owner after
                | ok (some lease) ↦ run_leased attempt owner lease after
              ]
        ]
      ]
