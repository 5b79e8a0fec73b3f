-- ===== src/Orchestrator/Moves.antt =====
-- `_renew_lease` and `_move` of `EngineeringOrchestrator`.
use lil_tweak.Prelude.{String, some, none, false, ok}
use lil_tweak.Json.{end}
use lil_tweak.Contracts.{
  JobState, draft, queued, ingesting, planning, executing, testing, collecting, awaiting_approval,
  applying, completed, rejected, cancelled, failed, timed_out,
}
use lil_tweak.Jobs.Model.{Job, JobLease}
use lil_tweak.Jobs.Updates.{JobChange, transition_job}
use lil_tweak.Jobs.Leases.{renew_claim}
use lil_tweak.Orchestrator.Session.{M, call, ◌>>=◌, ◌>>◌}
use lil_tweak.Orchestrator.Host.{Host}

-- `state.value`
unfoldable pub state_value : JobState → String
state_value draft = "draft"
state_value queued = "queued"
state_value ingesting = "ingesting"
state_value planning = "planning"
state_value executing = "executing"
state_value testing = "testing"
state_value collecting = "collecting"
state_value awaiting_approval = "awaiting_approval"
state_value applying = "applying"
state_value completed = "completed"
state_value rejected = "rejected"
state_value cancelled = "cancelled"
state_value failed = "failed"
state_value timed_out = "timed_out"

-- The arguments of `_move` that are left out are `None`.
abbrev pub to_state : JobState → JobChange
to_state state = record {
  state = state;
  proposal_digest = none;
  evidence_manifest = none;
  approved_digest = none;
  approval_consumed = false;
  summary = none;
  source_digest = none;
  approval_proposal = none;
  lease = none;
}

-- `self.lease = lease`
unfoldable pub keep_lease : JobLease → M (Unit {0})
keep_lease lease s = (ok tt, record s { lease = some lease })

module _ (h : Host) where
  unfoldable pub renew_lease : M (Unit {0})
  unfolding keep_lease
  renew_lease s = elim s.lease [
    | none ↦ (ok tt, s)
    | some lease ↦
        (call h.surroundings (λ now store. renew_claim lease h.lease_seconds now store)
            >>= keep_lease)
          s
  ]

  -- `self.store.transition_job(..., lease=self.lease, ...)`
  unfoldable pub transition_now : Job → JobChange → M Job
  unfolding state_value
  transition_now job c s =
      call h.surroundings
        (λ now store.
          transition_job job.id job.owner_id job.revision (record c { lease = s.lease })
            (state_value c.state) end now store)
        s

  unfoldable pub move : Job → JobChange → M Job
  move job c = renew_lease >> transition_now job c
