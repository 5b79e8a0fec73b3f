-- ===== src/TestWorld/Runner/Passed.antt =====
-- What stands behind a passed attempt that `run_attempt` returns, with a lease and without.
use lil_tweak.Prelude.{
  ◌≡◌, refl, String, Option, some, none, Result-cases, string_Eq, inl, inr, ◌⊎◌, arith, Bool-cases,
  Option-cases, ok,
}
use lil_tweak.TestWorld.Model.{World, Attempt, AttemptStatus, Lease, Store}
use lil_tweak.TestWorld.Queries.{get_attempt, get_world}
use lil_tweak.TestWorld.Leases.{claim_attempt}
use lil_tweak.TestWorld.Runner.{
  Tools, finding, entering, judged, run_attempt, arrive, is_preclaimed, looking, claiming,
  unclaimed,
}
use lil_tweak.TestWorld.Runner.Verdicts.{IsJudged, run_leased-IsJudged}

module _ {W : Type 0} (tools : Tools W) where
  -- The state in which the runner goes on, under a lease of the scheduler or after its own claim.
  abbrev pub started : String → Option Lease → Store → Store
  started id (some lease) s = arrive tools finding s
  started id none s =
      (claim_attempt id tools.worker_id tools.lease_seconds (tools.clock claiming)
        (arrive tools claiming (arrive tools finding s))).1

  -- The runner has got no lease, and returns the attempt as it finds it in the store.
  pub record IsOver (id owner : String) (given : Option Lease) (s t : Store) (a : Attempt)
      : Type 0 where
    pub alone : given ≡ none
    pub not_leased :
        (claim_attempt id tools.worker_id tools.lease_seconds
          (tools.clock claiming)
          (arrive tools claiming (arrive tools finding s))).0
        ≡ ok none
    pub found : get_attempt id owner (arrive tools looking (started id given s)) ≡ some a
    pub only : t ≡ arrive tools looking (started id given s)

  unclaimed-found :
      (id owner : String) (s t : Store) (a : Attempt)
      → unclaimed tools id owner s ≡ (ok a, t)
      → (get_attempt id owner (arrive tools looking s) ≡ some a) × (t ≡ arrive tools looking s)
  unfolding unclaimed
  unclaimed-found id owner s t a h = ground (arith, h)

  -- The run of an attempt that was found.
  passed_found :
      (id owner : String) (given : Option Lease) (s t : Store) (a attempt : Attempt)
      → get_attempt id owner (arrive tools finding s) ≡ some attempt
      → run_attempt tools id owner given s ≡ (ok a, t)
      → a.status ≡ AttemptStatus.passed
      → IsOver id owner given s t a
        ⊎ ((world : World) × (get_world attempt.world_id owner
                (arrive tools entering (started id given s))
              ≡ some world)
            × IsJudged tools world attempt a.cumulative_patch)
  unfolding run_attempt
  passed_found id owner (some lease) s t a attempt found h p =
      elim (Bool-cases (is_preclaimed tools lease attempt owner)) [
        | inr foreign ↦ ground (arith, h, found, foreign)
        | inl held ↦ inr (
            run_leased-IsJudged tools attempt owner lease (arrive tools finding s) t a
              (rw (found, held, run_attempt) at h) p)
      ]
  passed_found id owner none s t a attempt found h p =
      let after = started id none s in
      elim (Result-cases
        (claim_attempt id tools.worker_id tools.lease_seconds (tools.clock claiming)
          (arrive tools claiming (arrive tools finding s))).0) [
            | inr (e, refused) ↦ ground (arith, h, found, refused)
            | inl (none, no_lease) ↦
                let over =
                  unclaimed-found id owner after t a (rw (found, no_lease, run_attempt) at h) in
                inl (record { alone = refl; not_leased = no_lease; found = over.0; only = over.1 })
            | inl (some lease, leased) ↦ inr (
                run_leased-IsJudged tools attempt owner lease after t a
                  (rw (found, leased, run_attempt) at h) p)
          ]

  -- If `run_attempt` returns a passed attempt, then either it got no lease and the attempt that it found in the store had passed before, and it returns that attempt; or the agent worked in a workspace prepared for the attempt, the patch that is stored was captured there, and after the agent every check of the attempt's world was run, one after another in that workspace, and answered that it passed, and the workspace was cleaned up; what the agent reports of itself plays no part. The lease may come from the scheduler or from the runner's own claim; callbacks and the calls of other threads are arbitrary.
  pub passed_run-IsJudged :
      (id owner : String) (given : Option Lease) (s t : Store) (a : Attempt)
      → run_attempt tools id owner given s ≡ (ok a, t)
      → a.status ≡ AttemptStatus.passed
      → IsOver id owner given s t a
        ⊎ ((attempt : Attempt) × (world : World) × (get_attempt id owner (arrive tools finding s)
              ≡ some attempt)
            × (get_world attempt.world_id owner (arrive tools entering (started id given s))
                ≡ some world)
            × IsJudged tools world attempt a.cumulative_patch)
  unfolding run_attempt
  passed_run-IsJudged id owner given s t a h p =
      elim (Option-cases (get_attempt id owner (arrive tools finding s))) [
        | inl gone ↦ ground (arith, h, gone)
        | inr (attempt, found) ↦ elim (passed_found id owner given s t a attempt found h p) [
          | inl over ↦ inl over
          | inr (world, entered, judged) ↦ inr (attempt, world, found, entered, judged)
        ]
      ]
