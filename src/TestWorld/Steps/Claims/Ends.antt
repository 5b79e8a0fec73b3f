-- ===== src/TestWorld/Steps/Claims/Ends.antt =====
-- The calls that end an attempt, or requeue expired ones, keep the claims in step.
use lil_tweak.Prelude.{
  ℕ, refl, inl, inr, Bool, not, String, none, List, [], ◌∷◌, ◌++◌, string_Eq, pair_Eq, Bool-cases,
  between,
}
use lil_tweak.Prelude.Table.{values}
use lil_tweak.Json.{Fields}
use lil_tweak.TestWorld.Model.{World, Attempt, Lease, Store, WorldStatus, AttemptStatus}
use lil_tweak.Prelude.Sorting.{sort_by}
use lil_tweak.TestWorld.Queries.{attempt_before}
use lil_tweak.TestWorld.Leases.{same_lease, requeue, reconcile_loop, reconcile_active_attempts}
use lil_tweak.TestWorld.Results.{
  Report, complete_attempt, fail_attempt, finish, completed, failed_attempt,
}
use lil_tweak.TestWorld.Invariant.{IsKeyed, IsClaimed}
use lil_tweak.TestWorld.Steps.{
  held_attempt-eq, complete_held-after, complete_attempt-after, fail_attempt-after, fail_held-eq,
}
use lil_tweak.TestWorld.Steps.Reconcile.{round}
use lil_tweak.TestWorld.Steps.Claims.{drop-IsClaimed, mark_running-IsClaimed}

finish-IsClaimed :
    (a : Attempt) (world : World) (status : WorldStatus) (now : ℕ) (s : Store)
    → IsClaimed s
    → IsClaimed (finish a world status now s).1
unfolding finish
finish-IsClaimed a world status now s c = drop-IsClaimed a.id a s _ refl refl refl c

pub complete_attempt-IsClaimed :
    (lease : Lease) (r : Report) (now : ℕ) (s : Store)
    → IsClaimed s
    → IsClaimed (complete_attempt lease r now s).1
complete_attempt-IsClaimed lease r now s c = elim (complete_attempt-after lease r now s) [
  | inl same ↦ rw same c
  | inr (attempt, feedback, _, held, e) ↦ elim (complete_held-after attempt r feedback now s) [
    | inl same ↦ rw (e, same) c
    | inr (world, there, _, e') ↦
        rw (e, e') (finish-IsClaimed (completed attempt r feedback now) world _ now s c)
  ]
]

pub fail_attempt-IsClaimed :
    (lease : Lease) (feedback : List Fields) (summary : String) (blocked : Bool)
    (duration_ms now : ℕ) (s : Store)
    → IsKeyed s
    → IsClaimed s
    → IsClaimed (fail_attempt lease feedback summary blocked duration_ms now s).1
fail_attempt-IsClaimed lease feedback summary blocked duration_ms now s i c =
    elim (fail_attempt-after lease feedback summary blocked duration_ms now s) [
      | inl same ↦ rw same c
      | inr (attempt, bounded, _, held, e) ↦
          let (_, _, found, _, _) = held_attempt-eq same_lease lease s held in
          let (world, there) = i.has_world lease.attempt_id attempt found in
          rw (e, fail_held-eq attempt bounded summary blocked duration_ms now s world there)
            (finish-IsClaimed (failed_attempt attempt bounded summary duration_ms now) world _ now s
              c)
    ]

requeue-IsClaimed :
    (a : Attempt) (now : ℕ) (s : Store) → IsClaimed s → IsClaimed (requeue a now s).1
unfolding requeue
requeue-IsClaimed a now s c = mark_running-IsClaimed a.world_id now _ _ (
    drop-IsClaimed a.id (record a { status = AttemptStatus.queued; started_at = none }) s _ refl
      refl refl c)

reconcile_loop-IsClaimed :
    (xs : List Attempt) (now limit : ℕ) (recovered : List Attempt) (s : Store)
    → IsClaimed s
    → IsClaimed (reconcile_loop xs now limit recovered s).1
unfolding reconcile_loop
reconcile_loop-IsClaimed [] now limit recovered s c = c
reconcile_loop-IsClaimed (x ∷ xs) now limit recovered s c =
    elim (round x xs now limit recovered s) [
      | inl e ↦ rw e (reconcile_loop-IsClaimed xs now limit recovered s c)
      | inr (_, inl e) ↦ rw e (requeue-IsClaimed x now s c)
      | inr (_, inr (queued, e)) ↦ rw e (
          reconcile_loop-IsClaimed xs now limit (recovered ++ queued ∷ []) (requeue x now s).1
            (requeue-IsClaimed x now s c))
    ]

pub reconcile-IsClaimed :
    (now limit : ℕ) (s : Store) → IsClaimed s → IsClaimed (reconcile_active_attempts now limit s).1
unfolding reconcile_active_attempts
reconcile-IsClaimed now limit s c = elim (Bool-cases (not (between 1 1000 limit))) [
  | inl bad ↦ rw bad c
  | inr good ↦
      rw good
        (reconcile_loop-IsClaimed (sort_by attempt_before (values s.attempts)) now limit [] s c)
]
