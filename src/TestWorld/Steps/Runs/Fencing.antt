-- ===== src/TestWorld/Steps/Runs/Fencing.antt =====
-- What a lease is good for, and until when.
use lil_tweak.Prelude.{
  ℕ, ◌+◌, ◌≤◌, ◌≡◌, ◌≢◌, ◌∙◌, ap, Bool, false, String, some, none, List, string_Eq, arith, inl, inr,
  nat_eq, Bool-cases, Result-cases, ok, err,
}
use lil_tweak.Prelude.Table.{get, put, get-put_self}
use lil_tweak.Json.{Fields}
use lil_tweak.TestWorld.Model.{Error, bad_value, conflict, Lease, Store}
use lil_tweak.TestWorld.Admission.{Hashes}
use lil_tweak.TestWorld.Leases.{
  claim_attempt, generation_of, renew_attempt, release_attempt, same_holder, same_lease,
}
use lil_tweak.TestWorld.Results.{
  Report, complete_attempt, fail_attempt, check_report, check_failure, held_attempt,
}
use lil_tweak.TestWorld.Steps.Runs.{Call, run}
use lil_tweak.TestWorld.Steps.Runs.Generations.{claim-generations, run-grows}

-- No call with the lease changes the state, and every call that answers refuses it.
pub record IsRefused (l : Lease) (s : Store) : Type 0 where
  pub renews :
      (lease_seconds now : ℕ) → (e : Error) × (renew_attempt l lease_seconds now s ≡ (err e, s))
  pub completes : (r : Report) (now : ℕ) → (e : Error) × (complete_attempt l r now s ≡ (err e, s))
  pub fails :
      (feedback : List Fields) (summary : String) (blocked : Bool) (duration_ms now : ℕ)
      → (e : Error) × (fail_attempt l feedback summary blocked duration_ms now s ≡ (err e, s))
  pub releases : release_attempt l s ≡ s

other_generation :
    (current l : Lease) → current.generation ≢ l.generation → same_holder current l ≡ false
unfolding same_holder
other_generation current l ne = ground (arith, ne)

other_lease : (current l : Lease) → same_holder current l ≡ false → same_lease current l ≡ false
unfolding same_lease
other_lease current l h = ground (arith, h)

stale_renew :
    (l current : Lease) (lease_seconds now : ℕ) (s : Store)
    → get l.attempt_id s.claims ≡ some current
    → same_holder current l ≡ false
    → (e : Error) × (renew_attempt l lease_seconds now s ≡ (err e, s))
unfolding renew_attempt
stale_renew l current lease_seconds now s held other = elim (Bool-cases (nat_eq lease_seconds 0)) [
  | inl zero ↦ (bad_value "invalid lease", ground (arith, zero))
  | inr some_time ↦ (conflict "stale attempt lease", ground (arith, some_time, held, other))
]

stale_held :
    (same : Lease → Lease → Bool) (l current : Lease) (s : Store)
    → get l.attempt_id s.claims ≡ some current
    → same current l ≡ false
    → held_attempt same l s ≡ none
unfolding held_attempt
stale_held same l current s held other = ground (arith, held, other)

stale_complete :
    (l : Lease) (r : Report) (now : ℕ) (s : Store)
    → held_attempt same_holder l s ≡ none
    → (e : Error) × (complete_attempt l r now s ≡ (err e, s))
unfolding complete_attempt
stale_complete l r now s held = elim (Result-cases (check_report r)) [
  | inl (feedback, good) ↦ (conflict "stale attempt lease", ground (arith, good, held))
  | inr (e, bad) ↦ (e, ground (arith, bad))
]

stale_fail :
    (l : Lease) (feedback : List Fields) (summary : String) (blocked : Bool) (duration_ms now : ℕ)
    (s : Store)
    → held_attempt same_lease l s ≡ none
    → (e : Error) × (fail_attempt l feedback summary blocked duration_ms now s ≡ (err e, s))
unfolding fail_attempt
stale_fail l feedback summary blocked duration_ms now s held =
    elim (Result-cases (check_failure feedback summary duration_ms)) [
      | inl (bounded, good) ↦ (conflict "stale attempt lease", ground (arith, good, held))
      | inr (e, bad) ↦ (e, ground (arith, bad))
    ]

stale_release :
    (l current : Lease) (s : Store)
    → get l.attempt_id s.claims ≡ some current
    → same_lease current l ≡ false
    → release_attempt l s ≡ s
unfolding release_attempt
stale_release l current s held other = ground (arith, held, other)

stale-IsRefused :
    (l current : Lease) (s : Store)
    → get l.attempt_id s.claims ≡ some current
    → current.generation ≢ l.generation
    → IsRefused l s
stale-IsRefused l current s held ne =
    let other = other_generation current l ne in
    let other' = other_lease current l other in
    record {
      renews = λ lease_seconds now. stale_renew l current lease_seconds now s held other;
      completes = λ r now. stale_complete l r now s (stale_held same_holder l current s held other);
      fails = λ feedback summary blocked duration_ms now.
          stale_fail l feedback summary blocked duration_ms now s
            (stale_held same_lease l current s held other');
      releases = stale_release l current s held other';
    }

given_generation :
    (id : String) (t : Store) {g : ℕ} → get id t.generations ≡ some g → generation_of id t ≡ g
unfolding generation_of
given_generation id t h = ground (arith, h)

-- The generation of a lease that was given is below that of a later one.
newer :
    (id : String) (l l' : Lease) (t u s : Store)
    → t.generations ≡ put id l.generation s.generations
    → generation_of id t ≤ generation_of id u
    → l'.generation ≡ generation_of id u + 1
    → l'.generation ≢ l.generation
newer id l l' t u s table grows g' same =
    let given : generation_of id t ≡ l.generation =
      given_generation id t (rw table (get-put_self id l.generation s.generations)) in
    ground (arith, given, grows, g', same)

module _ (hashes : Hashes) (id worker worker' : String) (seconds seconds' now now' : ℕ)
    (calls : List Call) (s : Store) (l l' : Lease) where
  abbrev pub claimed_store : Store
  claimed_store = run hashes calls (claim_attempt id worker seconds now s).1

  -- Once an attempt that a lease `l` was given for is claimed again, after any calls, the lease `l` is of no use: with it, `renew_attempt`, `complete_attempt` and `fail_attempt` end in an exception whatever their other arguments, and these and `release_attempt` leave the state as it is.
  pub reclaimed_lease_is_fenced :
      (claim_attempt id worker seconds now s).0 ≡ ok (some l)
      → l.attempt_id ≡ id
      → (claim_attempt id worker' seconds' now' claimed_store).0 ≡ ok (some l')
      → IsRefused l (claim_attempt id worker' seconds' now' claimed_store).1
  reclaimed_lease_is_fenced first same second =
      let (_, table, _) = claim-generations id worker seconds now s l first in
      let (g', _, held) = claim-generations id worker' seconds' now' claimed_store l' second in
      let grows = run-grows hashes calls id (claim_attempt id worker seconds now s).1 in
      stale-IsRefused l l' (claim_attempt id worker' seconds' now' claimed_store).1
        (ap (λ (k : String). get k (claim_attempt id worker' seconds' now' claimed_store).1.claims)
            same
          ∙ held)
        (newer id l l' (claim_attempt id worker seconds now s).1 claimed_store s table grows g')
