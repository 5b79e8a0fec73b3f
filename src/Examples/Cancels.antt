-- ===== src/Examples/Cancels.antt =====
-- A cancellation sent twice, and a job that a second worker asks for and later claims.
use lil_tweak.Prelude.{
  ◌∷◌, [], err, List, ◌≡◌, ◌≢◌, refl, true, some, ok, string_Eq, pair_Eq, arith,
}
use lil_tweak.Prelude.Table.{get, put, remove}
use lil_tweak.Json.{get_field}
use lil_tweak.Contracts.{cancelled}
use lil_tweak.State.{transition}
use lil_tweak.Jobs.Model.{Job, JobLease, JobStore, moved_to, stale_lease}
use lil_tweak.Jobs.Events.{append_event_locked, owned_job, validated_event_data, is_valid_event}
use lil_tweak.Jobs.Cancels.{request_cancel_idempotent, cancelled_job, decided_before}
use lil_tweak.Jobs.Cancels.Replays.{cancel_is_idempotent}
use lil_tweak.Jobs.Leases.{claim_job, renew_claim, release_claim}
use lil_tweak.Jobs.Leases.Fencing.{reclaimed_job_is_fenced}
use lil_tweak.Jobs.Logs.{Digesters, JobCall, release, job_after, job_run}
use lil_tweak.Jobs.Leases.Claims.{job_lease_is_exclusive}
use lil_tweak.Examples.Stores.{waiting, at_waiting, at_draft}

abbrev stopped : Job
stopped = record waiting {
  state = cancelled;
  revision = 7;
  updated_at = 10;
  cancel_requested = true;
}

abbrev at_stopped : JobStore
at_stopped = (request_cancel_idempotent "j" "o" 6 "c" "h" 10 at_waiting).1

cancel_is_idempotent_example :
    request_cancel_idempotent "j" "o" 9 "c" "h" 20 at_stopped ≡ (ok stopped, at_stopped)
unfolding request_cancel_idempotent decided_before cancelled_job owned_job get put moved_to
    transition validated_event_data is_valid_event append_event_locked get_field
cancel_is_idempotent_example =
    cancel_is_idempotent "j" "o" 6 9 "c" "h" 10 20 at_waiting at_stopped stopped refl

abbrev lease : JobLease
lease = record { job_id = "j"; owner_id = "o"; worker_id = "w"; generation = 1; expires_at = 130 }

abbrev at_claimed : JobStore
at_claimed = (claim_job "j" "o" "w" 30 100 at_draft).1

job_lease_is_exclusive_example :
    ((claim_job "j" "o" "v" 30 120 at_claimed).1 ≡ at_claimed)
    × ((other : JobLease) → (claim_job "j" "o" "v" 30 120 at_claimed).0 ≢ ok (some other))
unfolding claim_job get put
job_lease_is_exclusive_example =
    job_lease_is_exclusive "j" "o" "w" 30 100 at_draft at_claimed lease "o" "v" 30 120 refl
      (omega arith)

abbrev digesters : Digesters
digesters = record { fingerprint = λ r. "f"; sha256 = λ text. "d" }

-- The lease is given back, and the job is claimed by another worker.
abbrev between_claims : List JobCall
between_claims = release lease ∷ []

abbrev second_lease : JobLease
second_lease = record lease { worker_id = "v"; generation = 2; expires_at = 150 }

abbrev at_second : JobStore
at_second = (claim_job "j" "o" "v" 30 120 (job_run digesters between_claims at_claimed)).1

reclaimed_job_is_fenced_example :
    (renew_claim lease 60 125 at_second ≡ (err stale_lease, at_second))
    × (release_claim lease at_second ≡ at_second)
unfolding claim_job release_claim job_run job_after get put remove
reclaimed_job_is_fenced_example =
    reclaimed_job_is_fenced digesters "j" "o" "w" "o" "v" 30 30 100 120 between_claims at_draft
      at_claimed at_second lease second_lease 59 125 refl refl
