-- ===== src/TestWorld/Steps/Runs/Passing.antt =====
-- From a queued attempt to a passed world.
use lil_tweak.Prelude.{
  ℕ, ◌+◌, ◌≡◌, refl, sym, true, false, String, some, List, string_Eq, arith, nat_eq, ok, beq_refl,
}
use lil_tweak.Prelude.Text.{is_blank}
use lil_tweak.Prelude.Table.{get, put, get-put_at}
use lil_tweak.Json.{Fields}
use lil_tweak.TestWorld.Model.{
  World, Attempt, AttemptStatus, Lease, Store, WorldStatus, is_queued, is_running,
}
use lil_tweak.TestWorld.Checks.{has_complete_pass_proof}
use lil_tweak.TestWorld.Queries.{is_free}
use lil_tweak.TestWorld.Leases.{
  claim_attempt, take_lease, new_lease, generation_of, mark_running, same_holder,
}
use lil_tweak.TestWorld.Results.{
  Report, complete_attempt, complete_held, check_report, held_attempt, completed, finish,
}
use lil_tweak.TestWorld.Invariant.{IsKeyed}

-- The store after `claim_attempt` has given a lease.
abbrev given : String → Attempt → World → Lease → ℕ → Store → Store
given id a w lease now s =
    let taken = take_lease id a lease now s in
    record taken {
      worlds = put w.id (record w { status = WorldStatus.running; updated_at = now }) taken.worlds;
    }

claim-eq :
    (id worker : String) (seconds now : ℕ) (s : Store) (a : Attempt) (w : World)
    → is_blank worker ≡ false
    → nat_eq seconds 0 ≡ false
    → get id s.attempts ≡ some a
    → is_queued a.status ≡ true
    → is_free (get id s.claims) now ≡ true
    → get a.world_id s.worlds ≡ some w
    → claim_attempt id worker seconds now s ≡ (
      ok (some (new_lease a worker (generation_of id s + 1) (now + seconds))),
      given id a w (new_lease a worker (generation_of id s + 1) (now + seconds)) now s,
    )
unfolding claim_attempt take_lease mark_running new_lease
claim-eq id worker seconds now s a w named positive found queued free there =
    ground (arith, named, positive, found, queued, free, there)

same_holder_refl : (l : Lease) → same_holder l l ≡ true
unfolding same_holder
same_holder_refl l = ground (arith, beq_refl l.worker_id, beq_refl l.owner_id, beq_refl l.world_id)

-- `complete_attempt` with a lease that is held.
complete-eq :
    (l : Lease) (r : Report) (feedback : List Fields) (later : ℕ) (s : Store) (a : Attempt)
    (w : World)
    → check_report r ≡ ok feedback
    → get l.attempt_id s.claims ≡ some l
    → get l.attempt_id s.attempts ≡ some a
    → is_running a.status ≡ true
    → get a.world_id s.worlds ≡ some w
    → a.world_fingerprint ≡ w.fingerprint
    → a.judge_version ≡ w.judge_version
    → r.passed ≡ true
    → has_complete_pass_proof w feedback ≡ true
    → complete_attempt l r later s
      ≡ finish (completed a r feedback later) w WorldStatus.passed later s
unfolding complete_attempt held_attempt complete_held
complete-eq l r feedback later s a w good held found running there same_world same_judge passed
      proof =
    ground (
      arith,
      same_holder_refl l,
      good,
      held,
      found,
      running,
      there,
      beq_refl w.fingerprint,
      beq_refl w.judge_version,
      passed,
      proof,
      same_world,
      same_judge,
    )

-- The proof reads nothing of the world but its checks.
proof_at :
    (w v : World) (feedback : List Fields)
    → v.checks ≡ w.checks
    → has_complete_pass_proof w feedback ≡ true
    → has_complete_pass_proof v feedback ≡ true
unfolding has_complete_pass_proof
proof_at w v feedback e h = rw e h

passed_status :
    (a : Attempt) (r : Report) (feedback : List Fields) (later : ℕ)
    → r.passed ≡ true
    → (completed a r feedback later).status ≡ AttemptStatus.passed
unfolding completed
passed_status a r feedback later h = ground (arith, h)

-- An attempt that is queued, free, and of a world whose fingerprint and judge version it carries: a worker whose name is not blank gets a lease on it for any number of seconds but zero, and `complete_attempt` with that lease and a passing report that is valid and proves every check of the world then succeeds, and leaves the attempt and the world passed.
pub claimed_attempt_can_pass :
    (id worker : String) (seconds now later : ℕ) (s : Store) (a : Attempt) (w : World) (r : Report)
    (feedback : List Fields)
    → IsKeyed s
    → is_blank worker ≡ false
    → nat_eq seconds 0 ≡ false
    → get id s.attempts ≡ some a
    → is_queued a.status ≡ true
    → is_free (get id s.claims) now ≡ true
    → get a.world_id s.worlds ≡ some w
    → a.world_fingerprint ≡ w.fingerprint
    → a.judge_version ≡ w.judge_version
    → check_report r ≡ ok feedback
    → r.passed ≡ true
    → has_complete_pass_proof w feedback ≡ true
    → (l : Lease) × (b : Attempt) × ((claim_attempt id worker seconds now s).0 ≡ ok (some l))
      × ((complete_attempt l r later (claim_attempt id worker seconds now s).1).0 ≡ ok b)
      × (b.status ≡ AttemptStatus.passed)
      × (get id (complete_attempt l r later (claim_attempt id worker seconds now s).1).1.attempts
          ≡ some b)
      × (get a.world_id
            (complete_attempt l r later (claim_attempt id worker seconds now s).1).1.worlds
          ≡ some (record w { status = WorldStatus.passed; updated_at = later }))
unfolding take_lease new_lease finish completed
claimed_attempt_can_pass id worker seconds now later s a w r feedback i named positive found queued
      free there same_world same_judge good passed proof =
    let l = new_lease a worker (generation_of id s + 1) (now + seconds) in
    let b = record a { status = AttemptStatus.running; started_at = some now } in
    let v = record w { status = WorldStatus.running; updated_at = now } in
    let at : a.id ≡ id = i.attempt_key id a found in
    let home : w.id ≡ a.world_id = i.world_key a.world_id w there in
    let claims = claim-eq id worker seconds now s a w named positive found queued free there in
    let completes =
      complete-eq l r feedback later (given id a w l now s) b v good
        (get-put_at id a.id l s.claims (sym at)) (get-put_at id a.id b s.attempts (sym at)) refl
        (get-put_at w.id a.world_id v s.worlds home) same_world same_judge passed
        (proof_at w v feedback refl proof) in
    (
      l,
      completed b r feedback later,
      rw claims refl,
      rw claims (rw completes refl),
      passed_status b r feedback later passed,
      rw claims (rw completes (get-put_at a.id id (completed b r feedback later) _ at)),
      rw claims (rw completes (get-put_at w.id a.world_id _ _ home)),
    )
