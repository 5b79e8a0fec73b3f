-- ===== src/TestWorld/Admission.antt =====
-- `create_world` and `enqueue_attempt` of `MemoryTestWorldStore`.
use lil_tweak.Prelude.{
  ℕ, ◌+◌, Bool, true, false, not, ◌||◌, String, some, none, List, [], ◌∷◌, ◌++◌, length, last?, leb,
  ltb, if◌then◌else◌, ◌==◌, string_Eq, pair_Eq, ok, err,
}
use lil_tweak.Prelude.Text.{utf8_len, is_blank, strip}
use lil_tweak.Prelude.Table.{get, put}
use lil_tweak.TestWorld.Model.{
  bad_value, conflict, not_found, limit_reached, key_error, Outcome, World, ready, running, Attempt,
  AttemptMode, queued, Store, Step, TestCheck, is_active, is_closed, same_mode,
}
use lil_tweak.TestWorld.Checks.{WorldSpec, is_valid_world}
use lil_tweak.TestWorld.Queries.{get_world}

-- SHA-256 over the canonical JSON text of a world's definition, and of its checks.
pub record Hashes : Type 0 where
  pub world_fingerprint : String → String → String → String → List TestCheck → ℕ → String
  pub judge_version : List TestCheck → String

unfoldable pub fingerprint_of : Hashes → WorldSpec → String
fingerprint_of hashes w =
    hashes.world_fingerprint w.name w.objective w.repository_url w.commit w.checks w.max_attempts

unfoldable pub new_world : Hashes → WorldSpec → String → ℕ → World
unfolding fingerprint_of
new_world hashes w id now = record {
  id = id;
  owner_id = w.owner_id;
  name = strip w.name;
  objective = strip w.objective;
  repository_url = w.repository_url;
  commit = w.commit;
  checks = w.checks;
  max_attempts = w.max_attempts;
  status = ready;
  fingerprint = fingerprint_of hashes w;
  judge_version = hashes.judge_version w.checks;
  created_at = now;
  updated_at = now;
}

-- `id` is the text of a new UUID, and `now` the clock's reading.
unfoldable pub create_world : Hashes → WorldSpec → String → ℕ → Store → Step World
create_world hashes w id now s =
    let identity : String × String = (w.owner_id, w.idempotency_key) in
    let world = new_world hashes w id now in
    if not (is_valid_world w)
    then (err (bad_value "invalid test world definition"), s)
    else elim (get identity s.world_idempotency) [
      | some (world_id, previous) ↦
          if not (previous == fingerprint_of hashes w)
          then (err (conflict "idempotency key reused"), s)
          else (elim (get world_id s.worlds) [ none ↦ err key_error | some old ↦ ok old ], s)
      | none ↦ (
        ok world,
        record s {
          worlds = put id world s.worlds;
          attempt_ids = put id [] s.attempt_ids;
          world_idempotency = put identity (id, fingerprint_of hashes w) s.world_idempotency;
        },
      )
    ]

-- `any(self._attempts[item].status in {QUEUED, RUNNING} for item in attempt_ids)`
unfoldable pub any_active : Store → List String → Outcome Bool
any_active s [] = ok false
any_active s (id ∷ ids) =
    let rest = any_active s ids in
    elim (get id s.attempts) [
      | none ↦ err key_error
      | some a ↦ if is_active a.status then ok true else rest
    ]

unfoldable pub new_attempt : World → String → String → AttemptMode → List String → ℕ → Attempt
new_attempt world id owner mode ids now = record {
  id = id;
  world_id = world.id;
  owner_id = owner;
  number = length ids + 1;
  status = queued;
  world_fingerprint = world.fingerprint;
  judge_version = world.judge_version;
  mode = mode;
  outcome = none;
  previous_attempt_id = last? ids;
  feedback = [];
  cumulative_patch = "";
  plan = "";
  summary = "";
  tests = "";
  model_calls = 0;
  input_tokens = 0;
  output_tokens = 0;
  total_tokens = 0;
  duration_ms = 0;
  judge_duration_ms = 0;
  created_at = now;
  started_at = none;
  finished_at = none;
}

-- The end of `enqueue_attempt`: the attempt is added, and the world runs.
unfoldable pub admit_attempt :
    World → String → String → String → String → AttemptMode → List String → ℕ → Store → Step Attempt
unfolding new_attempt
admit_attempt world world_id owner key id mode ids now s =
    let attempt = record (new_attempt world id owner mode ids now) { world_id = world_id } in
    (
      ok attempt,
      record s {
        worlds = put world_id (record world { status = running; updated_at = now }) s.worlds;
        attempts = put id attempt s.attempts;
        attempt_ids = put world_id (ids ++ id ∷ []) s.attempt_ids;
        attempt_idempotency = put (owner, key) (world_id, id, mode) s.attempt_idempotency;
      },
    )

-- `enqueue_attempt` for a world that was found, from the test of its status on.
unfoldable pub enqueue_in :
    World → String → String → String → String → AttemptMode → ℕ → Store → Step Attempt
enqueue_in world world_id owner key id mode now s =
    if is_closed world.status
    then (err (limit_reached "world cannot accept another attempt"), s)
    else elim (get world_id s.attempt_ids) [
      | none ↦ (err key_error, s)
      | some ids ↦ elim (any_active s ids) [
        | err e ↦ (err e, s)
        | ok true ↦ (err (conflict "world already has an active attempt"), s)
        | ok false ↦
            if leb world.max_attempts (length ids)
            then (err (limit_reached "attempt budget exhausted"), s)
            else admit_attempt world world_id owner key id mode ids now s
      ]
    ]

unfoldable pub enqueue_attempt :
    String → String → String → AttemptMode → String → ℕ → Store → Step Attempt
enqueue_attempt world_id owner key mode id now s =
    if is_blank key || ltb 200 (utf8_len key)
    then (err (bad_value "invalid idempotency key"), s)
    else elim (get {K = String × String} (owner, key) s.attempt_idempotency) [
      | some (old_world, attempt_id, old_mode) ↦
          if not (old_world == world_id) || not (same_mode old_mode mode)
          then (err (conflict "idempotency key reused"), s)
          else (elim (get attempt_id s.attempts) [ none ↦ err key_error | some a ↦ ok a ], s)
      | none ↦ elim (get_world world_id owner s) [
        | none ↦ (err (not_found "world not found"), s)
        | some world ↦ enqueue_in world world_id owner key id mode now s
      ]
    ]
