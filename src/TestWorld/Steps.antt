-- ===== src/TestWorld/Steps.antt =====
-- What each method of `MemoryTestWorldStore` leaves of the state, case by case.
pub mod Writes
pub mod Reconcile
pub mod Claims
pub mod Runs
use lil_tweak.Prelude.{
  ℕ, ◌+◌, ◌<◌, ◌≤◌, ◌≡◌, refl, ◌⊎◌, inl, inr, Bool, true, false, not, String, Option, some, none,
  List, [], ◌∷◌, ◌++◌, length, leb, nat_eq, if◌then◌else◌, ◌==◌, string_Eq, pair_Eq, Result, ok,
  err, arith, Bool-cases, Option-cases, Result-cases,
}
use lil_tweak.Prelude.Text.{is_blank}
use lil_tweak.Prelude.Table.{get, put, remove}
use lil_tweak.TestWorld.Model.{
  World, Attempt, AttemptMode, Lease, Store, Step, WorldStatus, AttemptStatus, is_queued,
  is_running, is_closed,
}
use lil_tweak.Json.{Fields}
use lil_tweak.TestWorld.Checks.{WorldSpec, is_valid_world, has_complete_pass_proof}
use lil_tweak.TestWorld.Queries.{get_world, is_free}
use lil_tweak.TestWorld.Admission.{
  Hashes, create_world, new_world, fingerprint_of, enqueue_attempt, enqueue_in, admit_attempt,
  any_active,
}
use lil_tweak.TestWorld.Leases.{
  claim_attempt, take_lease, new_lease, generation_of, mark_running, renew_attempt, release_attempt,
  same_holder, same_lease, requeue,
}
use lil_tweak.TestWorld.Results.{
  Report, complete_attempt, complete_held, check_report, held_attempt, fail_attempt, fail_held,
  check_failure, finish, completed, status_after, failed_attempt,
}

abbrev pub created : Hashes → WorldSpec → String → ℕ → Store → Store
created hashes w id now s = record s {
  worlds = put id (new_world hashes w id now) s.worlds;
  attempt_ids = put id [] s.attempt_ids;
  world_idempotency =
      put {K = String × String} (w.owner_id, w.idempotency_key) (id, fingerprint_of hashes w)
        s.world_idempotency;
}

pub create_world-after :
    (hashes : Hashes) (w : WorldSpec) (id : String) (now : ℕ) (s : Store)
    → ((create_world hashes w id now s).1 ≡ s)
      ⊎ ((create_world hashes w id now s).1 ≡ created hashes w id now s)
unfolding create_world
create_world-after hashes w id now s = ground arith

pub enqueue_in-after :
    (world : World) (world_id owner key id : String) (mode : AttemptMode) (now : ℕ) (s : Store)
    → ((enqueue_in world world_id owner key id mode now s).1 ≡ s)
      ⊎ ((ids : List String) × (is_closed world.status ≡ false)
          × (get world_id s.attempt_ids ≡ some ids)
          × (any_active s ids ≡ ok false)
          × (length ids < world.max_attempts)
          × ((enqueue_in world world_id owner key id mode now s)
              ≡ admit_attempt world world_id owner key id mode ids now s))
unfolding enqueue_in
enqueue_in-after world world_id owner key id mode now s = ground arith

pub enqueue_attempt-after :
    (world_id owner key id : String) (mode : AttemptMode) (now : ℕ) (s : Store)
    → ((enqueue_attempt world_id owner key mode id now s).1 ≡ s)
      ⊎ ((world : World) × (get world_id s.worlds ≡ some world)
          × ((world.owner_id == owner) ≡ true)
          × (enqueue_attempt world_id owner key mode id now s
              ≡ enqueue_in world world_id owner key id mode now s))
unfolding enqueue_attempt get_world
enqueue_attempt-after world_id owner key id mode now s = ground arith

pub claim_attempt-after :
    (id worker : String) (lease_seconds now : ℕ) (s : Store)
    → ((claim_attempt id worker lease_seconds now s).1 ≡ s)
      ⊎ ((attempt : Attempt) × (get id s.attempts ≡ some attempt)
          × (is_queued attempt.status ≡ true)
          × (is_free (get id s.claims) now ≡ true)
          × (claim_attempt id worker lease_seconds now s
              ≡ mark_running attempt.world_id now
                  (some (new_lease attempt worker (generation_of id s + 1) (now + lease_seconds)))
                  (take_lease id attempt
                    (new_lease attempt worker (generation_of id s + 1) (now + lease_seconds))
                    now
                    s)))
unfolding claim_attempt
claim_attempt-after id worker lease_seconds now s = ground arith

pub renew_attempt-after :
    (lease : Lease) (lease_seconds now : ℕ) (s : Store)
    → ((renew_attempt lease lease_seconds now s).1 ≡ s)
      ⊎ ((current : Lease) × (get lease.attempt_id s.claims ≡ some current)
          × (same_holder current lease ≡ true)
          × (now < current.expires_at)
          × ((renew_attempt lease lease_seconds now s).1 ≡ record s {
            claims =
                put lease.attempt_id (record current { expires_at = now + lease_seconds }) s.claims;
          }))
unfolding renew_attempt
renew_attempt-after lease lease_seconds now s = ground arith

pub release_attempt-after :
    (lease : Lease) (s : Store)
    → (release_attempt lease s ≡ s)
      ⊎ (release_attempt lease s ≡ record s { claims = remove lease.attempt_id s.claims })
unfolding release_attempt
release_attempt-after lease s = ground arith

pub held_attempt-eq :
    (same : Lease → Lease → Bool) (lease : Lease) (s : Store) {attempt : Attempt}
    → held_attempt same lease s ≡ some attempt
    → (current : Lease) × (get lease.attempt_id s.claims ≡ some current)
      × (get lease.attempt_id s.attempts ≡ some attempt)
      × (same current lease ≡ true)
      × (is_running attempt.status ≡ true)
unfolding held_attempt
held_attempt-eq same lease s h = ground arith

pub complete_held-after :
    (attempt : Attempt) (r : Report) (feedback : List Fields) (now : ℕ) (s : Store)
    → ((complete_held attempt r feedback now s).1 ≡ s)
      ⊎ ((world : World) × (get attempt.world_id s.worlds ≡ some world)
          × (r.passed ≡ true → has_complete_pass_proof world feedback ≡ true)
          × (complete_held attempt r feedback now s
              ≡ finish
                  (completed attempt r feedback now)
                  world
                  (if r.passed then WorldStatus.passed else status_after attempt world)
                  now
                  s))
unfolding complete_held
complete_held-after attempt r feedback now s = ground arith

pub complete_attempt-after :
    (lease : Lease) (r : Report) (now : ℕ) (s : Store)
    → ((complete_attempt lease r now s).1 ≡ s)
      ⊎ ((attempt : Attempt) × (feedback : List Fields) × (check_report r ≡ ok feedback)
          × (held_attempt same_holder lease s ≡ some attempt)
          × (complete_attempt lease r now s ≡ complete_held attempt r feedback now s))
unfolding complete_attempt
complete_attempt-after lease r now s = ground arith

pub fail_attempt-after :
    (lease : Lease) (feedback : List Fields) (summary : String) (blocked : Bool)
    (duration_ms now : ℕ) (s : Store)
    → ((fail_attempt lease feedback summary blocked duration_ms now s).1 ≡ s)
      ⊎ ((attempt : Attempt) × (bounded : List Fields) × (check_failure feedback summary duration_ms
            ≡ ok bounded)
          × (held_attempt same_lease lease s ≡ some attempt)
          × (fail_attempt lease feedback summary blocked duration_ms now s
              ≡ fail_held attempt bounded summary blocked duration_ms now s))
unfolding fail_attempt
fail_attempt-after lease feedback summary blocked duration_ms now s = ground arith

pub fail_held-eq :
    (attempt : Attempt) (feedback : List Fields) (summary : String) (blocked : Bool)
    (duration_ms now : ℕ) (s : Store) (world : World)
    → get attempt.world_id s.worlds ≡ some world
    → fail_held attempt feedback summary blocked duration_ms now s
      ≡ finish
          (failed_attempt attempt feedback summary duration_ms now)
          world
          (if blocked then WorldStatus.blocked else status_after attempt world)
          now
          s
unfolding fail_held
fail_held-eq attempt feedback summary blocked duration_ms now s world there = ground arith
