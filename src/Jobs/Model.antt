-- ===== src/Jobs/Model.antt =====
-- The records of store.py, its exceptions, and the state of `MemoryJobStore`. Times are ticks of the
-- clock.
use lil_tweak.Prelude.{
  ℕ, Bool, true, false, String, Option, some, none, List, Result, ok, err, Eq, nat_Eq, string_Eq,
  pair_Eq,
}
use lil_tweak.Prelude.Text.{is_blank}
use lil_tweak.Prelude.Table.{Table}
use lil_tweak.Json.{Fields}
use lil_tweak.Contracts.{JobMode, JobState}
use lil_tweak.State.{moved, invalid_transition, approval_missing, Evidence, transition}

-- `ValueError` with its text, the exceptions of the store and of state.py, and `KeyError`.
pub data StoreError : Type 0 where
  value_error : String → StoreError
  idempotency_conflict stale_revision stale_lease invalid_approval job_not_found : StoreError
  transition_refused approval_required missing_key : StoreError

abbrev pub Answer : Type 0 → Type 0
Answer A = Result StoreError A

pub record SourceSpec : Type 0 where
  pub source_id : String
  pub filename : String
  pub media_type : String
  pub size_bytes : ℕ
  pub object_key : String
  pub sha256 : Option String

pub record GitSourceSpec : Type 0 where
  pub repository_url : String
  pub commit : String

pub record JobLease : Type 0 where
  pub job_id : String
  pub owner_id : String
  pub worker_id : String
  pub generation : ℕ
  pub expires_at : ℕ

-- The fields `lease_owner`, `lease_generation` and `lease_expires_at` are left out: this store leaves
-- them at their defaults.
pub record Job : Type 0 where
  pub id : String
  pub owner_id : String
  pub mode : JobMode
  pub prompt : String
  pub state : JobState
  pub revision : ℕ
  pub proposal_digest : Option String
  pub evidence_manifest : Option Fields
  pub evidence_created_at : Table String ℕ
  pub summary : String
  pub sources : List SourceSpec
  pub source_digest : Option String
  pub approval_proposal : Option Fields
  pub approval_consumed : Bool
  pub project_context : Option Fields
  pub git_source : Option GitSourceSpec
  pub created_at : ℕ
  pub updated_at : ℕ
  pub cancel_requested : Bool

pub record JobEvent : Type 0 where
  pub job_id : String
  pub sequence : ℕ
  pub kind : String
  pub data_fields : Fields
  pub created_at : ℕ

pub record Approval : Type 0 where
  pub token_hash : String
  pub job_id : String
  pub owner_id : String
  pub revision : ℕ
  pub proposal_digest : String
  pub source_digest : String
  pub action : String
  pub target : String
  pub policy_version : String
  pub resource_profile : Fields
  pub expires_at : ℕ
  pub consumed : Bool
  pub consumed_at : Option ℕ

-- The key of the approval index: job, revision and proposal digest.
instance abbrev pub approval_key_Eq : Eq (String × (ℕ × String))
approval_key_Eq =
    pair_Eq {A = String} {B = ℕ × String} ⦃e = string_Eq⦄ ⦃f = pair_Eq ⦃e = nat_Eq⦄ ⦃f = string_Eq⦄⦄

pub record JobStore : Type 0 where
  pub nonces : Table (String × String) ℕ
  pub jobs : Table String Job
  pub idempotency : Table (String × String) (String × String)
  pub events : Table String (List JobEvent)
  pub approvals : Table String Approval
  pub approval_index : Table (String × (ℕ × String)) String
  pub decisions : Table (String × String) (String × String)
  pub claims : Table String JobLease
  pub lease_generations : Table String ℕ

-- A method returns its value or its exception, and the state that it leaves.
abbrev pub Turn : Type 0 → Type 0
Turn A = Answer A × JobStore

-- `transition`, whose exceptions pass through.
unfoldable pub moved_to : JobState → JobState → Evidence → Answer JobState
moved_to current target e = elim (transition current target e) [
  | moved t ↦ ok t
  | invalid_transition ↦ err transition_refused
  | approval_missing ↦ err approval_required
]

-- `a or b` for two optional texts.
abbrev pub or_else : Option String → Option String → Option String
or_else none b = b
or_else (some a) b = elim (is_blank a) [ true ↦ b | false ↦ some a ]
