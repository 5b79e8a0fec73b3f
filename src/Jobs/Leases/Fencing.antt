-- ===== src/Jobs/Leases/Fencing.antt =====
-- A lease of `MemoryJobStore` that was claimed again, after any calls.
use lil_tweak.Prelude.{
  ℕ, ◌+◌, ◌≤◌, ◌<◌, ◌≡◌, String, some, List, [], ◌∷◌, ok, err, arith, string_Eq,
}
use lil_tweak.Prelude.Table.{get}
use lil_tweak.Jobs.Model.{stale_lease, JobLease, JobStore}
use lil_tweak.Jobs.Nonces.{consume_nonce}
use lil_tweak.Jobs.Cancels.{request_cancel, record_decision}
use lil_tweak.Jobs.Approvals.Exports.{create_approval, consume_approval}
use lil_tweak.Jobs.Leases.{claim_job, renew_claim, release_claim, lease_generation}
use lil_tweak.Jobs.Leases.Claims.{claim-IsGranted}
use lil_tweak.Jobs.Leases.Generations.{
  renew-generations, update-generations, transition-generations, cancel-generations,
  decide-generations, export-generations, log-generations, create-generations, claim-generation,
  reconcile-generations, same-generation,
}
use lil_tweak.Jobs.Logs.{
  Digesters, JobCall, nonce, claim, renew, release, reconcile, create, update, cancel, cancel_once,
  decide, export, log, move, approve, use_approval, record_answer, job_after, job_run,
}

call-generation :
    (d : Digesters) (c : JobCall) (s : JobStore) (k : String)
    → lease_generation k s ≤ lease_generation k (job_after d c s)
unfolding job_after consume_nonce release_claim request_cancel create_approval consume_approval
    record_decision
call-generation d (nonce key_id value now later) s k =
    same-generation k s.lease_generations _ (ground arith)
call-generation d (claim id owner worker seconds now) s k =
    claim-generation id owner worker seconds now s k
call-generation d (renew lease seconds now) s k =
    same-generation k s.lease_generations _ (renew-generations lease seconds now s)
call-generation d (release lease) s k = same-generation k s.lease_generations _ (ground arith)
call-generation d (reconcile now limit) s k =
    same-generation k s.lease_generations _ (reconcile-generations now limit s)
call-generation d (create r id now) s k =
    same-generation k s.lease_generations _ (create-generations d.fingerprint r id now s)
call-generation d (update id owner revision c now) s k =
    same-generation k s.lease_generations _ (update-generations id owner revision c now s)
call-generation d (cancel id owner revision now) s k =
    same-generation k s.lease_generations _ (ground arith)
call-generation d (cancel_once id owner revision key hash now) s k =
    same-generation k s.lease_generations _ (cancel-generations id owner revision key hash now s)
call-generation d (decide id owner revision v now) s k =
    same-generation k s.lease_generations _ (decide-generations id owner revision v now s)
call-generation d (export u x now) s k =
    same-generation k s.lease_generations _ (export-generations d.sha256 u x now s)
call-generation d (log id owner kind data_fields now) s k =
    same-generation k s.lease_generations _ (log-generations id owner kind data_fields now s)
call-generation d (move id owner revision c kind data_fields now) s k =
    same-generation k s.lease_generations _
      (transition-generations id owner revision c kind data_fields now s)
call-generation d (approve a now) s k = same-generation k s.lease_generations _ (ground arith)
call-generation d (use_approval token u now) s k =
    same-generation k s.lease_generations _ (ground arith)
call-generation d (record_answer owner key hash id) s k =
    same-generation k s.lease_generations _ (ground arith)

le_trans : (a b c : ℕ) → a ≤ b → b ≤ c → a ≤ c
le_trans a b c p q = omega arith

run-generation :
    (d : Digesters) (calls : List JobCall) (s : JobStore) (k : String)
    → lease_generation k s ≤ lease_generation k (job_run d calls s)
unfolding job_run
run-generation d [] s k = omega arith
run-generation d (c ∷ cs) s k =
    le_trans _ _ _ (call-generation d c s k) (run-generation d cs (job_after d c s) k)

stale-IsRefused :
    (old held : JobLease) (seconds now : ℕ) (s : JobStore)
    → get old.job_id s.claims ≡ some held
    → old.generation < held.generation
    → (((renew_claim old (seconds + 1) now s) ≡ (err stale_lease, s))) × (release_claim old s ≡ s)
unfolding renew_claim release_claim
stale-IsRefused old held seconds now s found older = ground (arith, found, older)

-- When a job is claimed again after any calls, by whichever worker, the earlier lease of it can no longer be renewed, and releasing it changes nothing.
pub reclaimed_job_is_fenced :
    (d : Digesters) (id owner worker owner' worker' : String) (seconds seconds' now now' : ℕ)
    (calls : List JobCall) (s t v : JobStore) (old lease : JobLease) (more later : ℕ)
    → claim_job id owner worker seconds now s ≡ (ok (some old), t)
    → claim_job id owner' worker' seconds' now' (job_run d calls t) ≡ (ok (some lease), v)
    → (renew_claim old (more + 1) later v ≡ (err stale_lease, v)) × (release_claim old v ≡ v)
reclaimed_job_is_fenced d id owner worker owner' worker' seconds seconds' now now' calls s t v old
      lease more later first again =
    let a = claim-IsGranted id owner worker seconds now s t old first in
    let b = claim-IsGranted id owner' worker' seconds' now' (job_run d calls t) v lease again in
    let between = run-generation d calls t id in
    let older : old.generation < lease.generation =
      ground (arith, a.counted, b.numbered, between) in
    stale-IsRefused old lease more later v (rw a.of_job b.held) older
