-- ===== src/TestWorld/Results.antt =====
-- `complete_attempt` and `fail_attempt` of `MemoryTestWorldStore`: the result of an attempt under a
-- lease.
use lil_tweak.Prelude.{
  ℕ, ◌*◌, Bool, not, ◌&&◌, ◌||◌, String, Option, some, none, List, leb, nat_eq, if◌then◌else◌, ◌==◌,
  string_Eq, ok, err, ◌>>=◌, ◌>>◌, guard,
}
use lil_tweak.Prelude.Text.{utf8_len}
use lil_tweak.Prelude.Table.{get, put, remove}
use lil_tweak.Json.{Fields}
use lil_tweak.TestWorld.Model.{
  bad_value, conflict, key_error, Outcome, World, Attempt, Lease, Store, Step, WorldStatus,
  AttemptStatus, is_running,
}
use lil_tweak.TestWorld.Checks.{
  max_patch_bytes, validate_feedback, validate_duration, has_complete_pass_proof,
}
use lil_tweak.TestWorld.Leases.{same_holder, same_lease}

-- The keyword arguments of `complete_attempt`.
pub record Report : Type 0 where
  pub passed : Bool
  pub feedback : List Fields
  pub cumulative_patch : String
  pub plan : String
  pub summary : String
  pub tests : String
  pub model_calls : ℕ
  pub input_tokens : ℕ
  pub output_tokens : ℕ
  pub total_tokens : ℕ
  pub duration_ms : ℕ
  pub judge_duration_ms : ℕ

abbrev pub max_text_bytes : ℕ
max_text_bytes = 64 * 1024

-- The checks of the arguments, before the lock is taken.
unfoldable pub check_report : Report → Outcome (List Fields)
check_report r = do
  guard (leb (utf8_len r.cumulative_patch) max_patch_bytes) (bad_value "invalid attempt result")
  feedback ← validate_feedback r.feedback
  validate_duration r.duration_ms "invalid duration"
  validate_duration r.judge_duration_ms "invalid judge duration"
  guard (leb r.judge_duration_ms r.duration_ms || nat_eq r.duration_ms 0)
      (bad_value "judge duration exceeds attempt duration")
  guard
      (leb (utf8_len r.plan) max_text_bytes
        && leb (utf8_len r.summary) max_text_bytes
        && leb (utf8_len r.tests) max_text_bytes)
      (bad_value "invalid attempt text")
  ok feedback

unfoldable pub completed : Attempt → Report → List Fields → ℕ → Attempt
completed attempt r feedback now = record attempt {
  status = if r.passed then AttemptStatus.passed else AttemptStatus.failed;
  outcome = some (if r.passed then "pass" else "fail");
  feedback = feedback;
  cumulative_patch = r.cumulative_patch;
  plan = r.plan;
  summary = r.summary;
  tests = r.tests;
  model_calls = r.model_calls;
  input_tokens = r.input_tokens;
  output_tokens = r.output_tokens;
  total_tokens = r.total_tokens;
  duration_ms = r.duration_ms;
  judge_duration_ms = r.judge_duration_ms;
  finished_at = some now;
}

-- The status of the world after an attempt that did not pass.
abbrev pub status_after : Attempt → World → WorldStatus
status_after attempt world =
    if leb world.max_attempts attempt.number then WorldStatus.exhausted else WorldStatus.failed

-- The attempt is stored, its claim dropped, and the world gets its status.
unfoldable pub finish : Attempt → World → WorldStatus → ℕ → Store → Step Attempt
finish attempt world status now s = (
  ok attempt,
  record s {
    attempts = put attempt.id attempt s.attempts;
    claims = remove attempt.id s.claims;
    worlds = put world.id (record world { status = status; updated_at = now }) s.worlds;
  },
)

-- `complete_attempt` under the lock, for a lease that is held.
unfoldable pub complete_held : Attempt → Report → List Fields → ℕ → Store → Step Attempt
complete_held attempt r feedback now s = elim (get attempt.world_id s.worlds) [
  | none ↦ (err key_error, s)
  | some world ↦
      if not (attempt.world_fingerprint == world.fingerprint)
        || not (attempt.judge_version == world.judge_version)
      then (err (conflict "attempt challenge version mismatch"), s)
      else if r.passed && not (has_complete_pass_proof world feedback)
      then (err (conflict "pass requires complete judge proof"), s)
      else finish (completed attempt r feedback now) world
          (if r.passed then WorldStatus.passed else status_after attempt world) now s
]

-- The lookups of the claim and of the attempt, and the test of the lease.
unfoldable pub held_attempt : (Lease → Lease → Bool) → Lease → Store → Option Attempt
held_attempt same lease s = elim (get lease.attempt_id s.claims) [
  | none ↦ none
  | some current ↦ elim (get lease.attempt_id s.attempts) [
    | none ↦ none
    | some attempt ↦ if same current lease && is_running attempt.status then some attempt else none
  ]
]

unfoldable pub complete_attempt : Lease → Report → ℕ → Store → Step Attempt
complete_attempt lease r now s = elim (check_report r) [
  | err e ↦ (err e, s)
  | ok feedback ↦ elim (held_attempt same_holder lease s) [
    | none ↦ (err (conflict "stale attempt lease"), s)
    | some attempt ↦ complete_held attempt r feedback now s
  ]
]

-- The checks of the arguments of `fail_attempt`.
unfoldable pub check_failure : List Fields → String → ℕ → Outcome (List Fields)
check_failure feedback summary duration_ms = do
  bounded ← validate_feedback feedback
  validate_duration duration_ms "invalid duration"
  guard (leb (utf8_len summary) max_text_bytes) (bad_value "invalid attempt text")
  ok bounded

abbrev pub failed_attempt : Attempt → List Fields → String → ℕ → ℕ → Attempt
failed_attempt attempt feedback summary duration_ms now = record attempt {
  status = AttemptStatus.error;
  outcome = some "error";
  feedback = feedback;
  summary = summary;
  duration_ms = duration_ms;
  finished_at = some now;
}

-- `fail_attempt` under the lock, for a lease that is held.
unfoldable pub fail_held : Attempt → List Fields → String → Bool → ℕ → ℕ → Store → Step Attempt
fail_held attempt feedback summary blocked duration_ms now s =
    let failed = failed_attempt attempt feedback summary duration_ms now in
    elim (get attempt.world_id s.worlds) [
      | none ↦ (
        err key_error,
        record s {
          attempts = put attempt.id failed s.attempts;
          claims = remove attempt.id s.claims;
        },
      )
      | some world ↦
          finish failed world (if blocked then WorldStatus.blocked else status_after attempt world)
            now s
    ]

-- `fail_attempt` compares the whole lease, and the attempt's world and owner with the lease's.
unfoldable pub fail_attempt : Lease → List Fields → String → Bool → ℕ → ℕ → Store → Step Attempt
fail_attempt lease feedback summary blocked duration_ms now s =
    elim (check_failure feedback summary duration_ms) [
      | err e ↦ (err e, s)
      | ok bounded ↦ elim (held_attempt same_lease lease s) [
        | none ↦ (err (conflict "stale attempt lease"), s)
        | some attempt ↦
            if attempt.world_id == lease.world_id && attempt.owner_id == lease.owner_id
            then fail_held attempt bounded summary blocked duration_ms now s
            else (err (conflict "stale attempt lease"), s)
      ]
    ]
