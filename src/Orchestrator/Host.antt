-- ===== src/Orchestrator/Host.antt =====
-- What `EngineeringOrchestrator` works with beside the store: the agent, the workspace, and the places
-- that evidence goes to.
use lil_tweak.Prelude.{ℕ, Bool, String, Option, List, Result}
use lil_tweak.Json.{Json, Fields}
use lil_tweak.Contracts.{JobMode}
use lil_tweak.Jobs.Model.{Job}
use lil_tweak.Evidence.Snapshots.{WorkspaceSnapshot}
use lil_tweak.Evidence.Patch.{PatchTools}
use lil_tweak.Orchestrator.Session.{Fault, Surroundings}

-- `AgentResult` of core/lil_tweak/openai_agent.py.
pub record AgentResult : Type 0 where
  pub plan : String
  pub summary : String
  pub tests : String
  pub patch : String
  pub external_action : Option Fields
  pub commands : List (List String)
  pub model_calls : ℕ
  pub input_tokens : ℕ
  pub output_tokens : ℕ
  pub total_tokens : ℕ

-- The keyword arguments of `agent.run`, the clock apart.
pub record AgentRequest : Type 0 where
  pub mode : JobMode
  pub prompt : String
  pub source_inventory : List String
  pub project_context : Option Fields
  pub galor_context : Option Fields
  pub deadline : ℕ

-- `GalorResult`, of whose error only the presence is read.
pub record GalorResult : Type 0 where
  pub context : Option Fields
  pub failed : Bool

-- The arguments of `runner_verifier.verify`.
pub record VerifyRequest : Type 0 where
  pub job : Job
  pub patch : String
  pub baseline_digest : String
  pub final_digest : String
  pub source_commit : Option String
  pub source_tree : Option String

-- A workspace: whether the agent's tools can take a final snapshot, whether they hold a recovery
-- context before and after, whether the snapshot directory can be removed before and after, and what
-- the two snapshots give.
pub record Workspace : Type 0 where
  pub can_capture : Bool
  pub recovery_before : Bool
  pub recovery_after : Bool
  pub removed_before : Bool
  pub removed_after : Bool
  pub baseline : Result Fault WorkspaceSnapshot
  pub final : WorkspaceSnapshot → Result Fault WorkspaceSnapshot

-- What `build_command_evidence` makes of the agent's commands: the log, the fields, the timeouts.
pub record CommandEvidence : Type 0 where
  pub log : String
  pub metadata : Fields
  pub timeouts : List Bool

pub record StoredEvidence : Type 0 where
  pub key : String
  pub sha256 : String
  pub size : ℕ

pub record Host : Type 0 where
  pub surroundings : Surroundings
  pub sha256 : String → String
  pub patch_tools : PatchTools
  pub iso_timestamp : ℕ → String
  pub run_agent : AgentRequest → Result Fault AgentResult
  pub workspace : Option Workspace
  pub galor : Option (Fields → GalorResult)
  pub runner_verifier : Option (VerifyRequest → Result Fault Json)
  pub command_evidence : Result Fault CommandEvidence
  pub journal_evidence : Result Fault Fields
  pub put_evidence : String → String → String → Result Fault StoredEvidence
  pub monotonic : ℕ
  pub job_timeout_seconds : ℕ
  pub lease_seconds : ℕ
  pub source_inventory : List String
  pub source_commit : Option String
  pub source_tree : Option String
