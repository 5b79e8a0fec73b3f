-- ===== src/Jobs/Leases/Claims.antt =====
-- What a lease that `claim_job` granted keeps from other workers.
use lil_tweak.Prelude.{
  ◌+◌, ℕ, ◌<◌, ◌≡◌, ◌≢◌, inl, inr, not, ◌||◌, String, some, nat_eq, ◌==◌, string_Eq, ok, arith,
  Bool-cases, Option-cases,
}
use lil_tweak.Prelude.Text.{is_blank}
use lil_tweak.Prelude.Table.{get, get-put_self}
use lil_tweak.Jobs.Model.{JobLease, JobStore}
use lil_tweak.Jobs.Leases.{claim_job, lease_generation, is_settled, is_unclaimed}

-- The lease that a claim grants is stored, for its job, under the next generation.
pub record IsGranted (id : String) (s t : JobStore) (lease : JobLease) : Type 0 where
  pub of_job : lease.job_id ≡ id
  pub numbered : lease.generation ≡ lease_generation id s + 1
  pub counted : lease_generation id t ≡ lease.generation
  pub held : get id t.claims ≡ some lease

pub claim-IsGranted :
    (id owner worker : String) (seconds now : ℕ) (s t : JobStore) (lease : JobLease)
    → claim_job id owner worker seconds now s ≡ (ok (some lease), t)
    → IsGranted id s t lease
unfolding claim_job
claim-IsGranted id owner worker seconds now s t lease h =
    elim (Bool-cases (is_blank worker || nat_eq seconds 0)) [
      | inl bad ↦ ground (arith, h, bad)
      | inr good ↦ elim (Option-cases (get id s.jobs)) [
        | inl missing ↦ ground (arith, h, good, missing)
        | inr (job, found) ↦
            elim (Bool-cases (not (job.owner_id == owner) || is_settled job.state)) [
              | inl other ↦ ground (arith, h, good, found, other)
              | inr its ↦ elim (Bool-cases (is_unclaimed (get id s.claims) now)) [
                | inr kept ↦ ground (arith, h, good, found, its, kept)
                | inl unheld ↦ record {
                  of_job = ground (arith, h, good, found, its, unheld);
                  numbered = ground (arith, h, good, found, its, unheld);
                  counted = ground (
                    arith,
                    h,
                    good,
                    found,
                    its,
                    unheld,
                    get-put_self id (lease_generation id s + 1) s.lease_generations,
                  );
                  held =
                      ground (arith, h, good, found, its, unheld, get-put_self id lease s.claims);
                }
              ]
            ]
      ]
    ]

-- While a lease that `claim_job` granted lasts, no worker gets another one on the job, and asking for one changes nothing.
pub job_lease_is_exclusive :
    (id owner worker : String) (seconds now : ℕ) (s t : JobStore) (lease : JobLease)
    (owner' worker' : String) (seconds' now' : ℕ)
    → claim_job id owner worker seconds now s ≡ (ok (some lease), t)
    → now' < lease.expires_at
    → ((claim_job id owner' worker' seconds' now' t).1 ≡ t)
      × ((other : JobLease) → (claim_job id owner' worker' seconds' now' t).0 ≢ ok (some other))
unfolding claim_job
job_lease_is_exclusive id owner worker seconds now s t lease owner' worker' seconds' now' h lasts =
    let held = (claim-IsGranted id owner worker seconds now s t lease h).held in
    (ground (arith, held, lasts), λ other e. ground (arith, held, lasts, e))
