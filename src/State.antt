-- ===== src/State.antt =====
-- core/lil_tweak/state.py: which side effects need an approval, and the guarded transitions of a job.
pub mod Runs
use lil_tweak.Prelude.{
  Bool, true, false, not, ◌&&◌, ◌||◌, String, Option, none, some, if◌then◌else◌,
}
use lil_tweak.Prelude.Text.{is_blank}
use lil_tweak.Prelude.{◌==◌, string_Eq}
use lil_tweak.Contracts.{
  JobState, draft, queued, ingesting, planning, executing, testing, collecting, awaiting_approval,
  applying, completed, rejected, cancelled, failed, timed_out, is_terminal, SideEffect, commit,
  push, deploy, publish, external_delete, send_message, spend,
}

-- `effect in _APPROVAL_REQUIRED`
pub approval_required : SideEffect → Bool
approval_required commit = true
approval_required push = true
approval_required deploy = true
approval_required publish = true
approval_required external_delete = true
approval_required send_message = true
approval_required spend = true
approval_required _ = false

-- `target in _FORWARD.get(current, frozenset())`
unfoldable pub is_forward : JobState → JobState → Bool
is_forward draft queued = true
is_forward queued ingesting = true
is_forward ingesting planning = true
is_forward planning executing = true
is_forward executing testing = true
is_forward executing collecting = true
is_forward testing collecting = true
is_forward collecting awaiting_approval = true
is_forward collecting completed = true
is_forward awaiting_approval applying = true
is_forward awaiting_approval rejected = true
is_forward applying completed = true
is_forward _ _ = false

abbrev pub is_exceptional : JobState → Bool
is_exceptional cancelled = true
is_exceptional failed = true
is_exceptional timed_out = true
is_exceptional _ = false

-- The exceptions of this module, and the value that `transition` returns.
pub data Move : Type 0 where
  moved : JobState → Move
  invalid_transition approval_missing : Move

-- The keyword arguments of `transition`; of the evidence manifest only its truth value is read.
pub record Evidence : Type 0 where
  pub proposal_digest : Option String
  pub has_manifest : Bool
  pub approved_digest : Option String
  pub approval_recorded : Bool
  pub approval_consumed : Bool

-- The default values of the keyword arguments.
abbrev pub no_evidence : Evidence
no_evidence = record {
  proposal_digest = none;
  has_manifest = false;
  approved_digest = none;
  approval_recorded = false;
  approval_consumed = false;
}

-- The truth value of an optional text.
abbrev pub is_given : Option String → Bool
is_given none = false
is_given (some s) = not (is_blank s)

-- `a and b and hmac_digest_equal(a, b)`
unfoldable pub same_digest : Option String → Option String → Bool
same_digest (some a) (some b) = not (is_blank a) && not (is_blank b) && a == b
same_digest _ _ = false

unfoldable pub guard_target : JobState → Evidence → Move
unfolding same_digest
guard_target awaiting_approval e =
    if is_given e.proposal_digest && e.has_manifest
    then moved awaiting_approval
    else approval_missing
guard_target applying e =
    if same_digest e.proposal_digest e.approved_digest
      && e.approval_recorded
      && not e.approval_consumed
    then moved applying
    else approval_missing
guard_target target e = moved target

unfoldable pub transition : JobState → JobState → Evidence → Move
unfolding is_forward guard_target
transition current target e =
    if is_terminal current
    then invalid_transition
    else if not (is_forward current target) && not (is_exceptional target)
    then invalid_transition
    else guard_target target e
