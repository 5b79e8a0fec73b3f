-- ===== src/TestWorld/Steps/Runs/Generations.antt =====
-- The generation of an attempt never goes down.
use lil_tweak.Prelude.{
  ℕ, ◌+◌, ◌≤◌, ◌≡◌, refl, ◌∙◌, Bool, not, String, some, List, [], ◌∷◌, ◌++◌, string_Eq, pair_Eq,
  arith, inl, inr, between, Bool-cases, ok, eq_iff,
}
use lil_tweak.Prelude.Table.{get, put, get-put, get-put_self, values}
use lil_tweak.Json.{Fields}
use lil_tweak.TestWorld.Model.{Attempt, AttemptMode, Lease, Store}
use lil_tweak.TestWorld.Checks.{WorldSpec}
use lil_tweak.Prelude.Sorting.{sort_by}
use lil_tweak.TestWorld.Queries.{attempt_before}
use lil_tweak.TestWorld.Admission.{Hashes, create_world, enqueue_attempt, enqueue_in, admit_attempt}
use lil_tweak.TestWorld.Leases.{
  claim_attempt, take_lease, new_lease, generation_of, mark_running, renew_attempt, release_attempt,
  requeue, reconcile_loop, reconcile_active_attempts,
}
use lil_tweak.TestWorld.Results.{
  Report, complete_attempt, complete_held, fail_attempt, fail_held, finish,
}
use lil_tweak.TestWorld.Steps.{claim_attempt-after}
use lil_tweak.TestWorld.Steps.Reconcile.{round}
use lil_tweak.TestWorld.Steps.Runs.{
  Call, create, enqueue, claim, renew, release, reconcile, complete, fail, after, run,
}

pub mark_running-generations :
    {A : Type 0} (id : String) (now : ℕ) (value : A) (s : Store)
    → (mark_running id now value s).1.generations ≡ s.generations
unfolding mark_running
mark_running-generations id now value s = ground arith

requeue-generations :
    (a : Attempt) (now : ℕ) (s : Store) → (requeue a now s).1.generations ≡ s.generations
unfolding requeue
requeue-generations a now s = mark_running-generations a.world_id now _ _

create-generations :
    (hashes : Hashes) (w : WorldSpec) (id : String) (now : ℕ) (s : Store)
    → (create_world hashes w id now s).1.generations ≡ s.generations
unfolding create_world
create-generations hashes w id now s = ground arith

renew-generations :
    (lease : Lease) (lease_seconds now : ℕ) (s : Store)
    → (renew_attempt lease lease_seconds now s).1.generations ≡ s.generations
unfolding renew_attempt
renew-generations lease lease_seconds now s = ground arith

release-generations :
    (lease : Lease) (s : Store) → (release_attempt lease s).generations ≡ s.generations
unfolding release_attempt
release-generations lease s = ground arith

enqueue-generations :
    (world_id owner key id : String) (mode : AttemptMode) (now : ℕ) (s : Store)
    → (enqueue_attempt world_id owner key mode id now s).1.generations ≡ s.generations
unfolding enqueue_attempt enqueue_in admit_attempt
enqueue-generations world_id owner key id mode now s = ground arith

complete-generations :
    (lease : Lease) (r : Report) (now : ℕ) (s : Store)
    → (complete_attempt lease r now s).1.generations ≡ s.generations
unfolding complete_attempt complete_held finish
complete-generations lease r now s = ground arith

fail-generations :
    (lease : Lease) (feedback : List Fields) (summary : String) (blocked : Bool)
    (duration_ms now : ℕ) (s : Store)
    → (fail_attempt lease feedback summary blocked duration_ms now s).1.generations ≡ s.generations
unfolding fail_attempt fail_held finish
fail-generations lease feedback summary blocked duration_ms now s = ground arith

reconcile_loop-generations :
    (xs : List Attempt) (now limit : ℕ) (recovered : List Attempt) (s : Store)
    → (reconcile_loop xs now limit recovered s).1.generations ≡ s.generations
unfolding reconcile_loop
reconcile_loop-generations [] now limit recovered s = refl
reconcile_loop-generations (x ∷ xs) now limit recovered s =
    elim (round x xs now limit recovered s) [
      | inl e ↦ rw e (reconcile_loop-generations xs now limit recovered s)
      | inr (_, inl e) ↦ rw e (requeue-generations x now s)
      | inr (_, inr (queued, e)) ↦ rw e (
          reconcile_loop-generations xs now limit (recovered ++ queued ∷ []) (requeue x now s).1
          ∙ requeue-generations x now s)
    ]

reconcile-generations :
    (now limit : ℕ) (s : Store)
    → (reconcile_active_attempts now limit s).1.generations ≡ s.generations
unfolding reconcile_active_attempts
reconcile-generations now limit s = elim (Bool-cases (not (between 1 1000 limit))) [
  | inl bad ↦ rw bad refl
  | inr good ↦
      rw good
        (reconcile_loop-generations (sort_by attempt_before (values s.attempts)) now limit [] s)
]

-- The state in which a lease has just been given.
pub claim-generations :
    (id worker : String) (lease_seconds now : ℕ) (s : Store) (lease : Lease)
    → (claim_attempt id worker lease_seconds now s).0 ≡ ok (some lease)
    → (lease.generation ≡ generation_of id s + 1)
      × ((claim_attempt id worker lease_seconds now s).1.generations
          ≡ put id lease.generation s.generations)
      × (get id (claim_attempt id worker lease_seconds now s).1.claims ≡ some lease)
unfolding claim_attempt take_lease mark_running new_lease
claim-generations id worker lease_seconds now s lease h =
    ground (arith, h, get-put_self id lease s.claims)

put-grows :
    (k id : String) (s t : Store)
    → t.generations ≡ put id (generation_of id s + 1) s.generations
    → generation_of k s ≤ generation_of k t
unfolding generation_of
put-grows k id s t e =
    rw e (ground (arith, eq_iff id k, get-put id k (generation_of id s + 1) s.generations))

claim-grows :
    (k id worker : String) (lease_seconds now : ℕ) (s : Store)
    → generation_of k s ≤ generation_of k (claim_attempt id worker lease_seconds now s).1
unfolding take_lease new_lease
claim-grows k id worker lease_seconds now s =
    elim (claim_attempt-after id worker lease_seconds now s) [
      | inl same ↦ rw same (ground arith)
      | inr (attempt, found, queued, _, e) ↦
          let lease = new_lease attempt worker (generation_of id s + 1) (now + lease_seconds) in
          rw e (
            put-grows k id s _ (
              mark_running-generations attempt.world_id now (some lease)
                (take_lease id attempt lease now s)))
    ]

same-grows :
    (k : String) (s t : Store)
    → t.generations ≡ s.generations
    → generation_of k s ≤ generation_of k t
unfolding generation_of
same-grows k s t e = rw e (ground arith)

pub after-grows :
    (hashes : Hashes) (c : Call) (k : String) (s : Store)
    → generation_of k s ≤ generation_of k (after hashes c s)
unfolding after
after-grows hashes (create w id now) k s = same-grows k s _ (create-generations hashes w id now s)
after-grows hashes (enqueue world_id owner key mode id now) k s =
    same-grows k s _ (enqueue-generations world_id owner key id mode now s)
after-grows hashes (claim id worker lease_seconds now) k s =
    claim-grows k id worker lease_seconds now s
after-grows hashes (renew lease lease_seconds now) k s =
    same-grows k s _ (renew-generations lease lease_seconds now s)
after-grows hashes (release lease) k s = same-grows k s _ (release-generations lease s)
after-grows hashes (reconcile now limit) k s = same-grows k s _ (reconcile-generations now limit s)
after-grows hashes (complete lease r now) k s =
    same-grows k s _ (complete-generations lease r now s)
after-grows hashes (fail lease feedback summary blocked duration_ms now) k s =
    same-grows k s _ (fail-generations lease feedback summary blocked duration_ms now s)

pub run-grows :
    (hashes : Hashes) (cs : List Call) (k : String) (s : Store)
    → generation_of k s ≤ generation_of k (run hashes cs s)
unfolding run
run-grows hashes [] k s = ground arith
run-grows hashes (c ∷ cs) k s =
    ground (arith, after-grows hashes c k s, run-grows hashes cs k (after hashes c s))
