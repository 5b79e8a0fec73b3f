-- ===== src/TestWorld/Runner/Answers.antt =====
-- What the answers of the store and of the judge say when they are good.
use lil_tweak.Prelude.{
  ℕ, ◌≡◌, refl, ◌∙◌, ap, Bool, true, false, ◌&&◌, String, Option, some, none, List, string_Eq, inl,
  inr, arith, Option-cases, Result-cases, Result, ok, err, >>=-eq-ok,
}
use lil_tweak.Prelude.Table.{get}
use lil_tweak.Json.{Fields, get_field}
use lil_tweak.TestWorld.Model.{TestCheck, Attempt, AttemptStatus, Lease, Store, Step}
use lil_tweak.TestWorld.Leases.{same_holder, same_lease}
use lil_tweak.TestWorld.Results.{
  Report, complete_attempt, complete_held, completed, finish, fail_attempt, fail_held, held_attempt,
  check_report, check_failure,
}
use lil_tweak.TestWorld.Runner.{Raised, judged, answered_step}
use lil_tweak.TestWorld.Runner.Feedback.{
  judge_feedback, truth_of, exit_code_of, text_or_blank, required,
}

pub complete-passed :
    (lease : Lease) (r : Report) (now : ℕ) (s t : Store) (a : Attempt)
    → complete_attempt lease r now s ≡ (ok a, t)
    → a.status ≡ AttemptStatus.passed
    → (r.passed ≡ true) × (r.cumulative_patch ≡ a.cumulative_patch)
unfolding complete_attempt complete_held completed finish
complete-passed lease r now s t a h p = elim (Result-cases (check_report r)) [
  | inr (e, bad) ↦ ground (arith, h, bad)
  | inl (feedback, good) ↦ elim (Option-cases (held_attempt same_holder lease s)) [
    | inl stale ↦ ground (arith, h, good, stale)
    | inr (attempt, held) ↦ elim (Option-cases (get attempt.world_id s.worlds)) [
      | inl gone ↦ ground (arith, h, good, held, gone)
      | inr (world, found) ↦
          (ground (arith, h, good, held, found, p), ground (arith, h, good, held, found, p))
    ]
  ]
]

pub fail-error :
    (lease : Lease) (feedback : List Fields) (summary : String) (blocked : Bool) (took now : ℕ)
    (s t : Store) (a : Attempt)
    → fail_attempt lease feedback summary blocked took now s ≡ (ok a, t)
    → a.status ≡ AttemptStatus.error
unfolding fail_attempt fail_held finish
fail-error lease feedback summary blocked took now s t a h =
    elim (Result-cases (check_failure feedback summary took)) [
      | inr (e, bad) ↦ ground (arith, h, bad)
      | inl (bounded, good) ↦ elim (Option-cases (held_attempt same_lease lease s)) [
        | inl stale ↦ ground (arith, h, good, stale)
        | inr (attempt, held) ↦ elim (Option-cases (get attempt.world_id s.worlds)) [
          | inl gone ↦ ground (arith, h, good, held, gone)
          | inr (world, found) ↦ ground (arith, h, good, held, found)
        ]
      ]
    ]

required-ok : {A : Type 0} (o : Option A) (a : A) → required o ≡ ok a → o ≡ some a
required-ok none a h = cc h
required-ok (some b) a h = ground (arith, h)

pub feedback-passed :
    (check : TestCheck) (result verdict : Fields) (passed : Bool)
    → judge_feedback check result ≡ ok (verdict, passed)
    → truth_of (get_field "passed" result) ≡ some passed
unfolding judge_feedback
feedback-passed check result verdict passed h =
    let (b, is_b, h1) = >>=-eq-ok (required (truth_of (get_field "passed" result))) _ h in
    let (_, _, h2) = >>=-eq-ok (required (exit_code_of (get_field "exitCode" result))) _ h1 in
    let (_, _, h3) = >>=-eq-ok (required (truth_of (get_field "timedOut" result))) _ h2 in
    let (_, _, h4) = >>=-eq-ok (required (truth_of (get_field "truncated" result))) _ h3 in
    let (_, _, h5) = >>=-eq-ok (required (text_or_blank (get_field "stdout" result))) _ h4 in
    let (_, _, h6) = >>=-eq-ok (required (text_or_blank (get_field "stderr" result))) _ h5 in
    let same : b ≡ passed = ground (arith, h6) in
    required-ok (truth_of (get_field "passed" result)) b is_b ∙ ap some same

pub judged-ok : {A : Type 0} (r : Result String A) (a : A) → judged r ≡ ok a → r ≡ ok a
judged-ok (ok b) a h = ground (arith, h)
judged-ok (err e) a h = cc h

pub both_passed :
    {W : Type 0} (end_state last : W) (fs gs : List Fields) (p q : Bool)
    → ◌≡◌ {A = Result Raised (W × List Fields × Bool)}
        (ok (end_state, fs, p && q))
        (ok (last, gs, true))
    → (end_state ≡ last) × (p ≡ true) × (q ≡ true)
both_passed end_state last fs gs true q h = (ground (arith, h), refl, ground (arith, h))
both_passed end_state last fs gs false q h = ground (arith, h)

pub answered-eq :
    (step : Step Attempt) (a : Attempt) (t : Store)
    → answered_step step ≡ (ok a, t)
    → step ≡ (ok a, t)
answered-eq (ok b, u) a t h = ground (arith, h)
answered-eq (err e, u) a t h = ground (arith, h)

pub reported : (r report : Report) → ◌≡◌ {A = Result Raised Report} (ok r) (ok report) → r ≡ report
reported r report h = ground (arith, h)
