-- ===== src/Jobs/Leases.antt =====
-- The leases of `MemoryJobStore`: `claim_job`, `renew_claim`, `release_claim`,
-- `list_schedulable_jobs` and `reconcile_active_jobs`.
pub mod Claims
pub mod Generations
pub mod Fencing
use Prim.Native.Nat.{Ordering}
use Prim.Native.String as S
use lil_tweak.Prelude.{
  ℕ, ◌+◌, Bool, true, false, not, ◌&&◌, ◌||◌, String, Option, some, none, List, [], ◌∷◌, ◌++◌,
  length, find, take, select, leb, ltb, nat_eq, between, if◌then◌else◌, ◌==◌, string_Eq, option_Eq,
  ok, err,
}
use lil_tweak.Prelude.Text.{is_blank}
use lil_tweak.Prelude.Table.{get, put, remove, values}
use lil_tweak.Json.{Fields, end}
use lil_tweak.Contracts.{
  JobState, queued, ingesting, planning, executing, testing, collecting, awaiting_approval,
  applying, completed, timed_out, is_terminal,
}
use lil_tweak.Prelude.Sorting.{sort_by}
use lil_tweak.Jobs.Model.{value_error, stale_lease, Answer, JobLease, Job, Approval, JobStore, Turn}
use lil_tweak.Jobs.Events.{append_event_locked}
use lil_tweak.Jobs.Approvals.{export_action}

-- `claim is None or claim.expires_at <= current_time`
abbrev pub is_unclaimed : Option JobLease → ℕ → Bool
is_unclaimed none now = true
is_unclaimed (some claim) now = leb claim.expires_at now

-- States in which a job is not claimed: it waits for approval, or is done.
abbrev pub is_settled : JobState → Bool
is_settled awaiting_approval = true
is_settled state = is_terminal state

abbrev pub lease_generation : String → JobStore → ℕ
lease_generation job_id s = elim (get job_id s.lease_generations) [ none ↦ 0 | some g ↦ g ]

unfoldable pub claim_job : String → String → String → ℕ → ℕ → JobStore → Turn (Option JobLease)
claim_job job_id owner worker lease_seconds now s =
    let claimed : JobLease = record {
      job_id = job_id;
      owner_id = owner;
      worker_id = worker;
      generation = lease_generation job_id s + 1;
      expires_at = now + lease_seconds;
    } in
    if is_blank worker || nat_eq lease_seconds 0
    then (err (value_error "invalid lease"), s)
    else elim (get job_id s.jobs) [
      | none ↦ (ok none, s)
      | some job ↦
          if not (job.owner_id == owner) || is_settled job.state
          then (ok none, s)
          else if not (is_unclaimed (get job_id s.claims) now)
          then (ok none, s)
          else (
            ok (some claimed),
            record s {
              lease_generations = put job_id claimed.generation s.lease_generations;
              claims = put job_id claimed s.claims;
            },
          )
    ]

-- The owner, worker and generation that `renew_claim` and `release_claim` compare.
abbrev pub is_holder : JobLease → JobLease → Bool
is_holder current lease =
    current.owner_id == lease.owner_id
    && current.worker_id == lease.worker_id
    && nat_eq current.generation lease.generation

unfoldable pub renew_claim : JobLease → ℕ → ℕ → JobStore → Turn JobLease
renew_claim lease lease_seconds now s =
    if nat_eq lease_seconds 0
    then (err (value_error "invalid lease"), s)
    else elim (get lease.job_id s.claims) [
      | none ↦ (err stale_lease, s)
      | some current ↦
          let renewed = record current { expires_at = now + lease_seconds } in
          if not (is_holder current lease) || leb current.expires_at now
          then (err stale_lease, s)
          else (ok renewed, record s { claims = put lease.job_id renewed s.claims })
    ]

unfoldable pub release_claim : JobLease → JobStore → JobStore
release_claim lease s = elim (get lease.job_id s.claims) [
  | none ↦ s
  | some current ↦
      if is_holder current lease then record s { claims = remove lease.job_id s.claims } else s
]

-- The order of `(created_at, id)`.
abbrev pub job_before : Job → Job → Bool
job_before a b =
    ltb a.created_at b.created_at
    || (nat_eq a.created_at b.created_at
        && elim (S.compare a.id b.id) [ Ordering.lt ↦ true | _ ↦ false ])

abbrev is_queued_job : JobState → Bool
is_queued_job queued = true
is_queued_job _ = false

unfoldable pub is_schedulable : JobStore → ℕ → Job → Bool
is_schedulable s now job = is_queued_job job.state && is_unclaimed (get job.id s.claims) now

unfoldable pub list_schedulable_jobs : ℕ → ℕ → JobStore → Answer (List Job)
unfolding is_schedulable sort_by
list_schedulable_jobs now limit s =
    if not (between 1 1000 limit)
    then err (value_error "invalid scheduler limit")
    else ok (take limit (select (is_schedulable s now) (sort_by job_before (values s.jobs))))

-- `job.state in active`
abbrev pub is_active_job : JobState → Bool
is_active_job ingesting = true
is_active_job planning = true
is_active_job executing = true
is_active_job testing = true
is_active_job collecting = true
is_active_job applying = true
is_active_job _ = false

abbrev pub approves_job : Job → Approval → Bool
approves_job job a =
    a.job_id == job.id
    && a.owner_id == job.owner_id
    && job.proposal_digest == some a.proposal_digest

-- Where a job goes whose worker is gone; `none` leaves it, since its approval may still be used.
unfoldable pub recovery_target : Job → Option Approval → ℕ → Option JobState
recovery_target job approval now = elim job.state [
  | applying ↦ elim approval [
    | none ↦ some timed_out
    | some a ↦
        if a.consumed then some completed else if ltb now a.expires_at then none else some timed_out
  ]
  | _ ↦ some queued
]

-- The name and the data of the event for this target.
abbrev pub recovery_kind : JobState → String
recovery_kind completed = "completed"
recovery_kind timed_out = "timed_out"
recovery_kind _ = "queued"

abbrev pub recovery_data : JobState → Fields
recovery_data completed = export_action
recovery_data _ = end

abbrev pub recovered_jobs : JobState → Job → List Job → List Job
recovered_jobs queued job jobs = jobs ++ job ∷ []
recovered_jobs _ job jobs = jobs

-- One job is moved, its claim dropped, and the event logged.
unfoldable pub recover_job : Job → JobState → ℕ → JobStore → Turn Job
recover_job job target now s =
    let updated = record job { state = target; revision = job.revision + 1; updated_at = now } in
    let (event, after) =
      append_event_locked job.id (recovery_kind target) (recovery_data target) now
        (record s { jobs = put job.id updated s.jobs; claims = remove job.id s.claims }) in
    (elim event [ err e ↦ err e | ok _ ↦ ok updated ], after)

unfoldable pub reconcile_jobs : List Job → ℕ → ℕ → List Job → JobStore → Turn (List Job)
reconcile_jobs [] now limit recovered s = (ok recovered, s)
reconcile_jobs (job ∷ rest) now limit recovered s =
    let skip = reconcile_jobs rest now limit recovered s in
    if leb limit (length recovered) || not (is_active_job job.state)
    then skip
    else if not (is_unclaimed (get job.id s.claims) now)
    then skip
    else elim (recovery_target job (find (approves_job job) (values s.approvals)) now) [
      | none ↦ skip
      | some target ↦
          let (result, after) = recover_job job target now s in
          elim result [
            | err e ↦ (err e, after)
            | ok updated ↦
                reconcile_jobs rest now limit (recovered_jobs target updated recovered) after
          ]
    ]

unfoldable pub reconcile_active_jobs : ℕ → ℕ → JobStore → Turn (List Job)
unfolding reconcile_jobs
reconcile_active_jobs now limit s =
    reconcile_jobs (sort_by job_before (values s.jobs)) now limit [] s
