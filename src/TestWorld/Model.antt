-- ===== src/TestWorld/Model.antt =====
-- The records of test_world.py, its exceptions, and the state of `MemoryTestWorldStore`. Times are
-- ticks of the clock.
use lil_tweak.Prelude.{ℕ, Bool, true, false, String, Option, List, [], Result}
use lil_tweak.Prelude.Table.{Table}
use lil_tweak.Json.{Fields}

pub data WorldStatus : Type 0 where
  ready running failed passed exhausted blocked : WorldStatus

pub data AttemptStatus : Type 0 where
  queued running passed failed error : AttemptStatus

pub data AttemptMode : Type 0 where
  retry fresh : AttemptMode

-- `ValueError`, `TestWorldConflict`, `TestWorldNotFound`, `TestWorldLimitReached`, each with its text,
-- and the `KeyError` of a table that lacks a key.
pub data Error : Type 0 where
  bad_value conflict not_found limit_reached : String → Error
  key_error : Error

abbrev pub Outcome : Type 0 → Type 0
Outcome A = Result Error A

pub record TestCheck : Type 0 where
  pub name : String
  pub command : List String
  pub timeout_seconds : ℕ

pub record World : Type 0 where
  pub id : String
  pub owner_id : String
  pub name : String
  pub objective : String
  pub repository_url : String
  pub commit : String
  pub checks : List TestCheck
  pub max_attempts : ℕ
  pub status : WorldStatus
  pub fingerprint : String
  pub judge_version : String
  pub created_at : ℕ
  pub updated_at : ℕ

pub record Attempt : Type 0 where
  pub id : String
  pub world_id : String
  pub owner_id : String
  pub number : ℕ
  pub status : AttemptStatus
  pub world_fingerprint : String
  pub judge_version : String
  pub mode : AttemptMode
  pub outcome : Option String
  pub previous_attempt_id : Option String
  pub feedback : List Fields
  pub cumulative_patch : String
  pub plan : String
  pub summary : String
  pub tests : String
  pub model_calls : ℕ
  pub input_tokens : ℕ
  pub output_tokens : ℕ
  pub total_tokens : ℕ
  pub duration_ms : ℕ
  pub judge_duration_ms : ℕ
  pub created_at : ℕ
  pub started_at : Option ℕ
  pub finished_at : Option ℕ

pub record Lease : Type 0 where
  pub attempt_id : String
  pub world_id : String
  pub owner_id : String
  pub worker_id : String
  pub generation : ℕ
  pub expires_at : ℕ

pub record Store : Type 0 where
  pub worlds : Table String World
  pub attempts : Table String Attempt
  pub attempt_ids : Table String (List String)
  pub world_idempotency : Table (String × String) (String × String)
  pub attempt_idempotency : Table (String × String) (String × String × AttemptMode)
  pub claims : Table String Lease
  pub generations : Table String ℕ

abbrev pub empty_store : Store
empty_store = record {
  worlds = [];
  attempts = [];
  attempt_ids = [];
  world_idempotency = [];
  attempt_idempotency = [];
  claims = [];
  generations = [];
}

-- A method returns its value or its exception, and the state that it leaves.
abbrev pub Step : Type 0 → Type 0
Step A = Outcome A × Store

abbrev pub is_queued : AttemptStatus → Bool
is_queued queued = true
is_queued _ = false

abbrev pub is_running : AttemptStatus → Bool
is_running running = true
is_running _ = false

-- `status in {QUEUED, RUNNING}`
abbrev pub is_active : AttemptStatus → Bool
is_active queued = true
is_active running = true
is_active _ = false

-- `status in {PASSED, EXHAUSTED, BLOCKED}`
abbrev pub is_closed : WorldStatus → Bool
is_closed passed = true
is_closed exhausted = true
is_closed blocked = true
is_closed _ = false

abbrev pub same_mode : AttemptMode → AttemptMode → Bool
same_mode retry retry = true
same_mode fresh fresh = true
same_mode _ _ = false
