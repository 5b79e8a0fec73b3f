-- ===== src/Jobs/Updates/Refusals.antt =====
-- What `update_job` and `request_cancel_idempotent` accept, and what they leave after it.
use lil_tweak.Prelude.{
  ℕ, ◌+◌, ◌≡◌, ◌≢◌, refl, ap, true, false, String, some, nat_eq, ◌==◌, string_Eq, pair_Eq, ok, err,
  arith, eq_iff,
}
use lil_tweak.Prelude.Table.{get, put, get-put_self}
use lil_tweak.Contracts.{JobState, applying, is_terminal}
use lil_tweak.State.{Evidence, transition}
use lil_tweak.Jobs.Model.{stale_revision, Job, JobStore, moved_to}
use lil_tweak.Jobs.Events.{owned_job}
use lil_tweak.Jobs.Updates.{JobChange, evidence_of, updated_job, update_job}

-- What an accepted update found and left.
pub record IsUpdated (job_id owner : String) (expected : ℕ) (c : JobChange) (s t : JobStore)
    (j : Job) : Type 0 where
  pub job : Job
  pub target : JobState
  pub found : get job_id s.jobs ≡ some job
  pub owned : job.owner_id ≡ owner
  pub current : job.revision ≡ expected
  pub was_open : is_terminal job.state ≡ false
  pub not_applying : target ≢ applying
  pub next : j.revision ≡ expected + 1
  pub moved : j.state ≡ target
  pub only : t ≡ record s { jobs = put job_id j s.jobs }

moved_to-open :
    (current target reached : JobState) (e : Evidence)
    → moved_to current target e ≡ ok reached
    → is_terminal current ≡ false
unfolding moved_to transition
moved_to-open current target reached e h = ground (arith, h)

moved_to-unrecorded :
    (current target reached : JobState) (e : Evidence)
    → e.approval_recorded ≡ false
    → moved_to current target e ≡ ok reached
    → reached ≢ applying
unfolding moved_to transition
moved_to-unrecorded current target reached e none_recorded h p = ground (arith, h, p, none_recorded)

pub update_job-after :
    (job_id owner : String) (expected : ℕ) (c : JobChange) (now : ℕ) (s t : JobStore) (j : Job)
    → update_job job_id owner expected c now s ≡ (ok j, t)
    → (job : Job) × (target : JobState) × (get job_id s.jobs ≡ some job)
      × ((job.owner_id == owner) ≡ true)
      × (nat_eq job.revision expected ≡ true)
      × (moved_to job.state c.state (evidence_of c) ≡ ok target)
      × (j ≡ updated_job job c target now)
      × (t ≡ record s { jobs = put job_id j s.jobs })
unfolding update_job owned_job
update_job-after job_id owner expected c now s t j h = ground (arith, h)

-- An update that `update_job` accepts is of a job of this owner, at the expected revision and not in a terminal state; it raises the revision by one, never moves the job to `applying`, and changes nothing but this job.
pub update_is_guarded :
    (job_id owner : String) (expected : ℕ) (c : JobChange) (now : ℕ) (s t : JobStore) (j : Job)
    → update_job job_id owner expected c now s ≡ (ok j, t)
    → IsUpdated job_id owner expected c s t j
unfolding updated_job
update_is_guarded job_id owner expected c now s t j h =
    let (job, target, found, owned, current, moved, made, only) =
      update_job-after job_id owner expected c now s t j h in
    record {
      job = job;
      target = target;
      found = found;
      owned = (eq_iff job.owner_id owner).0 owned;
      current = ground (arith, current);
      was_open = moved_to-open job.state c.state target (evidence_of c) moved;
      not_applying = moved_to-unrecorded job.state c.state target (evidence_of c) refl moved;
      next = ground (arith, current, ap (λ (z : Job). z.revision) made);
      moved = ap (λ (z : Job). z.state) made;
      only = only;
    }

stale-update :
    (job_id owner : String) (expected : ℕ) (c : JobChange) (now : ℕ) (s : JobStore) (job : Job)
    → get job_id s.jobs ≡ some job
    → (job.owner_id == owner) ≡ true
    → nat_eq job.revision expected ≡ false
    → update_job job_id owner expected c now s ≡ (err stale_revision, s)
unfolding update_job owned_job
stale-update job_id owner expected c now s job found owned other =
    ground (arith, found, owned, other)

updated-owner :
    (job : Job) (c : JobChange) (target : JobState) (now : ℕ)
    → (updated_job job c target now).owner_id ≡ job.owner_id
unfolding updated_job
updated-owner job c target now = refl

-- Of two updates of a job that expect the same revision only the first can be accepted: after it the second ends in `StaleRevision`, whatever it asks for, and leaves the state as it is.
pub second_update_is_stale :
    (job_id owner : String) (expected : ℕ) (c c' : JobChange) (now now' : ℕ) (s t : JobStore)
    (j : Job)
    → update_job job_id owner expected c now s ≡ (ok j, t)
    → update_job job_id owner expected c' now' t ≡ (err stale_revision, t)
second_update_is_stale job_id owner expected c c' now now' s t j h =
    let (job, target, found, owned, current, moved, made, only) =
      update_job-after job_id owner expected c now s t j h in
    let u = update_is_guarded job_id owner expected c now s t j h in
    stale-update job_id owner expected c' now' t j (rw only (get-put_self job_id j s.jobs))
      (rw (made, updated-owner job c target now) owned) (ground (arith, u.next))
