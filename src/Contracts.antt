-- ===== src/Contracts.antt =====
-- core/lil_tweak/contracts.py: the job modes, the job states and the side effects, and
-- core/lil_tweak/limits.py: the byte and inode budgets.
use lil_tweak.Prelude.{ℕ, ◌+◌, ◌*◌, Bool, true, false}

pub data JobMode : Type 0 where
  build debug refactor test architect chat : JobMode

pub data JobState : Type 0 where
  draft queued ingesting planning executing testing collecting : JobState
  awaiting_approval applying completed rejected cancelled failed timed_out : JobState

pub data SideEffect : Type 0 where
  read_local write_local test_local commit push deploy publish : SideEffect
  external_delete send_message spend : SideEffect

pub JobState-discrete : Discrete JobState
JobState-discrete = hlevel

-- `state in TERMINAL_STATES`
abbrev pub is_terminal : JobState → Bool
is_terminal completed = true
is_terminal rejected = true
is_terminal cancelled = true
is_terminal failed = true
is_terminal timed_out = true
is_terminal _ = false

abbrev pub mib : ℕ
mib = 1024 * 1024

abbrev pub max_evidence_bytes : ℕ
max_evidence_bytes = 2 * mib

abbrev pub max_expanded_source_bytes : ℕ
max_expanded_source_bytes = 128 * mib

abbrev pub runner_workspace_bytes : ℕ
runner_workspace_bytes = 256 * mib

abbrev pub runner_workspace_inodes : ℕ
runner_workspace_inodes = 65_536

abbrev pub trusted_work_root_bytes : ℕ
trusted_work_root_bytes = 1024 * mib

abbrev pub trusted_work_root_tree_slots : ℕ
trusted_work_root_tree_slots = 3

abbrev pub trusted_work_root_bookkeeping_inodes : ℕ
trusted_work_root_bookkeeping_inodes = 8_192

abbrev pub trusted_work_root_inodes : ℕ
trusted_work_root_inodes =
    trusted_work_root_tree_slots * runner_workspace_inodes + trusted_work_root_bookkeeping_inodes
