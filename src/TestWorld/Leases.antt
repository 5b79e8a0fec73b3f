-- ===== src/TestWorld/Leases.antt =====
-- The leases of `MemoryTestWorldStore`: `claim_attempt`, `renew_attempt`, `release_attempt`, and
-- `reconcile_active_attempts`, which takes back attempts whose lease ran out.
use lil_tweak.Prelude.{
  ℕ, ◌+◌, Bool, not, ◌&&◌, ◌||◌, String, Option, some, none, List, [], ◌∷◌, ◌++◌, length, leb,
  nat_eq, between, if◌then◌else◌, ◌==◌, string_Eq, ok, err,
}
use lil_tweak.Prelude.Text.{is_blank}
use lil_tweak.Prelude.Table.{get, put, remove, values}
use lil_tweak.TestWorld.Model.{
  bad_value, conflict, key_error, Attempt, Lease, Store, Step, WorldStatus, AttemptStatus,
  is_queued, is_running,
}
use lil_tweak.Prelude.Sorting.{sort_by}
use lil_tweak.TestWorld.Queries.{attempt_before, is_free}

-- `self._worlds[world.id] = replace(world, status=RUNNING, updated_at=now)`, where `world` is
-- `self._worlds[world_id]`.
unfoldable pub mark_running : {A : Type 0} → String → ℕ → A → Store → Step A
mark_running world_id now value s = elim (get world_id s.worlds) [
  | none ↦ (err key_error, s)
  | some world ↦ (
    ok value,
    record s {
      worlds =
          put world.id (record world { status = WorldStatus.running; updated_at = now }) s.worlds;
    },
  )
]

-- `self._generations.get(attempt_id, 0)`
unfoldable pub generation_of : String → Store → ℕ
generation_of id s = elim (get id s.generations) [ none ↦ 0 | some g ↦ g ]

unfoldable pub new_lease : Attempt → String → ℕ → ℕ → Lease
new_lease attempt worker generation expires_at = record {
  attempt_id = attempt.id;
  world_id = attempt.world_id;
  owner_id = attempt.owner_id;
  worker_id = worker;
  generation = generation;
  expires_at = expires_at;
}

-- The attempt, its lease and its generation, before the world is looked up.
unfoldable pub take_lease : String → Attempt → Lease → ℕ → Store → Store
take_lease id attempt lease now s = record s {
  generations = put id lease.generation s.generations;
  claims = put id lease s.claims;
  attempts =
      put id (record attempt { status = AttemptStatus.running; started_at = some now }) s.attempts;
}

unfoldable pub claim_attempt : String → String → ℕ → ℕ → Store → Step (Option Lease)
unfolding generation_of new_lease
claim_attempt id worker lease_seconds now s =
    if is_blank worker || nat_eq lease_seconds 0
    then (err (bad_value "invalid lease"), s)
    else elim (get id s.attempts) [
      | none ↦ (ok none, s)
      | some attempt ↦
          let lease = new_lease attempt worker (generation_of id s + 1) (now + lease_seconds) in
          if not (is_queued attempt.status)
          then (ok none, s)
          else if not (is_free (get id s.claims) now)
          then (ok none, s)
          else mark_running attempt.world_id now (some lease) (take_lease id attempt lease now s)
    ]

-- The fields that `renew_attempt` compares.
unfoldable pub same_holder : Lease → Lease → Bool
same_holder current lease =
    current.worker_id == lease.worker_id
    && current.owner_id == lease.owner_id
    && current.world_id == lease.world_id
    && nat_eq current.generation lease.generation

unfoldable pub renew_attempt : Lease → ℕ → ℕ → Store → Step Lease
renew_attempt lease lease_seconds now s =
    if nat_eq lease_seconds 0
    then (err (bad_value "invalid lease"), s)
    else elim (get lease.attempt_id s.claims) [
      | none ↦ (err (conflict "stale attempt lease"), s)
      | some current ↦
          let renewed = record current { expires_at = now + lease_seconds } in
          if not (same_holder current lease) || leb current.expires_at now
          then (err (conflict "stale attempt lease"), s)
          else (ok renewed, record s { claims = put lease.attempt_id renewed s.claims })
    ]

-- `current == lease`: all fields of the two records.
unfoldable pub same_lease : Lease → Lease → Bool
unfolding same_holder
same_lease current lease =
    current.attempt_id == lease.attempt_id
    && same_holder current lease
    && nat_eq current.expires_at lease.expires_at

unfoldable pub release_attempt : Lease → Store → Store
release_attempt lease s = elim (get lease.attempt_id s.claims) [
  | none ↦ s
  | some current ↦
      if same_lease current lease then record s { claims = remove lease.attempt_id s.claims } else s
]

-- One round of the loop of `reconcile_active_attempts`: the attempts taken back so far, the state.
unfoldable pub requeue : Attempt → ℕ → Store → Step Attempt
requeue attempt now s =
    let queued = record attempt { status = AttemptStatus.queued; started_at = none } in
    mark_running attempt.world_id now queued (record s {
      attempts = put attempt.id queued s.attempts;
      claims = remove attempt.id s.claims;
    })

unfoldable pub reconcile_loop : List Attempt → ℕ → ℕ → List Attempt → Store → Step (List Attempt)
reconcile_loop [] now limit recovered s = (ok recovered, s)
reconcile_loop (attempt ∷ rest) now limit recovered s =
    let skip = reconcile_loop rest now limit recovered s in
    if leb limit (length recovered) || not (is_running attempt.status)
    then skip
    else if not (is_free (get attempt.id s.claims) now)
    then skip
    else let (result, after) = requeue attempt now s in
      elim result [
        | err e ↦ (err e, after)
        | ok queued ↦ reconcile_loop rest now limit (recovered ++ queued ∷ []) after
      ]

unfoldable pub reconcile_active_attempts : ℕ → ℕ → Store → Step (List Attempt)
unfolding reconcile_loop
reconcile_active_attempts now limit s =
    if not (between 1 1000 limit)
    then (err (bad_value "invalid scheduler limit"), s)
    else reconcile_loop (sort_by attempt_before (values s.attempts)) now limit [] s
