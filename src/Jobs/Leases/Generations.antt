-- ===== src/Jobs/Leases/Generations.antt =====
-- The counts from which `claim_job` takes the generation of a lease: no other call changes them.
use lil_tweak.Prelude.{
  ℕ, ◌≡◌, ◌≤◌, ◌+◌, refl, ◌⊎◌, inl, inr, String, some, none, List, [], ◌∷◌, find, string_Eq,
  pair_Eq, arith, Bool-cases, Option-cases, Result-cases, eq_iff, ◌==◌,
}
use lil_tweak.Prelude.Sorting.{sort_by}
use lil_tweak.Prelude.Table.{Table, get, put, values, get-put, get-put_at}
use lil_tweak.Json.{Fields}
use lil_tweak.Contracts.{JobState}
use lil_tweak.Jobs.Model.{Job, JobLease, JobStore}
use lil_tweak.Jobs.Events.{append_event_locked, append_event}
use lil_tweak.Jobs.Updates.{JobRequest, create_job, JobChange, update_job, transition_job}
use lil_tweak.Jobs.Cancels.{request_cancel_idempotent}
use lil_tweak.Jobs.Approvals.{Verdict, decide_job_idempotent, reject_job, approve_job}
use lil_tweak.Jobs.Approvals.Exports.{Use, Export, consume_export_idempotent}
use lil_tweak.Jobs.Leases.{
  claim_job, renew_claim, reconcile_active_jobs, reconcile_jobs, recover_job, recovery_target,
  approves_job, recovered_jobs, job_before, lease_generation,
}

append-generations :
    (id kind : String) (d : Fields) (now : ℕ) (s : JobStore)
    → (append_event_locked id kind d now s).1.lease_generations ≡ s.lease_generations
unfolding append_event_locked
append-generations id kind d now s = ground arith

pub renew-generations :
    (l : JobLease) (seconds now : ℕ) (s : JobStore)
    → (renew_claim l seconds now s).1.lease_generations ≡ s.lease_generations
unfolding renew_claim
renew-generations l seconds now s = ground arith

pub update-generations :
    (id owner : String) (revision : ℕ) (c : JobChange) (now : ℕ) (s : JobStore)
    → (update_job id owner revision c now s).1.lease_generations ≡ s.lease_generations
unfolding update_job
update-generations id owner revision c now s = ground arith

pub transition-generations :
    (id owner : String) (revision : ℕ) (c : JobChange) (kind : String) (d : Fields) (now : ℕ)
    (s : JobStore)
    → (transition_job id owner revision c kind d now s).1.lease_generations ≡ s.lease_generations
unfolding transition_job update_job append_event_locked
transition-generations id owner revision c kind d now s = ground arith

pub cancel-generations :
    (id owner : String) (revision : ℕ) (key hash : String) (now : ℕ) (s : JobStore)
    → (request_cancel_idempotent id owner revision key hash now s).1.lease_generations
      ≡ s.lease_generations
unfolding request_cancel_idempotent append_event_locked
cancel-generations id owner revision key hash now s = ground arith

pub decide-generations :
    (id owner : String) (revision : ℕ) (v : Verdict) (now : ℕ) (s : JobStore)
    → (decide_job_idempotent id owner revision v now s).1.lease_generations ≡ s.lease_generations
unfolding decide_job_idempotent reject_job approve_job append_event_locked
decide-generations id owner revision v now s = ground arith

pub export-generations :
    (sha256 : String → String) (u : Use) (x : Export) (now : ℕ) (s : JobStore)
    → (consume_export_idempotent sha256 u x now s).1.lease_generations ≡ s.lease_generations
unfolding consume_export_idempotent append_event_locked
export-generations sha256 u x now s = ground arith

pub log-generations :
    (id owner kind : String) (d : Fields) (now : ℕ) (s : JobStore)
    → (append_event id owner kind d now s).1.lease_generations ≡ s.lease_generations
unfolding append_event append_event_locked
log-generations id owner kind d now s = ground arith

pub create-generations :
    (fingerprint : JobRequest → String) (r : JobRequest) (id : String) (now : ℕ) (s : JobStore)
    → (create_job fingerprint r id now s).1.lease_generations ≡ s.lease_generations
unfolding create_job
create-generations fingerprint r id now s = ground arith

claim-generations :
    (id owner worker : String) (seconds now : ℕ) (s : JobStore)
    → ((claim_job id owner worker seconds now s).1.lease_generations ≡ s.lease_generations)
      ⊎ ((claim_job id owner worker seconds now s).1.lease_generations
          ≡ put id (lease_generation id s + 1) s.lease_generations)
unfolding claim_job
claim-generations id owner worker seconds now s = ground arith

abbrev pub count_of : String → Table String ℕ → ℕ
count_of k g = elim (get k g) [ none ↦ 0 | some n ↦ n ]

pub same-generation : (k : String) (g h : Table String ℕ) → h ≡ g → count_of k g ≤ count_of k h
same-generation k g h e = rw e (omega arith)

next-generation :
    (id k : String) (g h : Table String ℕ)
    → h ≡ put id (count_of id g + 1) g
    → count_of k g ≤ count_of k h
next-generation id k g h e = elim (Bool-cases (id == k)) [
  | inl at_k ↦
      ground (
        arith,
        e,
        (eq_iff id k).0 at_k,
        get-put_at id k (count_of id g + 1) g ((eq_iff id k).0 at_k),
      )
  | inr other ↦ ground (arith, e, other, get-put id k (count_of id g + 1) g)
]

pub claim-generation :
    (id owner worker : String) (seconds now : ℕ) (s : JobStore) (k : String)
    → lease_generation k s ≤ lease_generation k (claim_job id owner worker seconds now s).1
claim-generation id owner worker seconds now s k =
    elim (claim-generations id owner worker seconds now s) [
      | inl e ↦ same-generation k s.lease_generations _ e
      | inr e ↦ next-generation id k s.lease_generations _ e
    ]

recover-generations :
    (job : Job) (target : JobState) (now : ℕ) (s : JobStore)
    → (recover_job job target now s).1.lease_generations ≡ s.lease_generations
unfolding recover_job append_event_locked
recover-generations job target now s = ground arith

reconcile_jobs-generations :
    (xs : List Job) (now limit : ℕ) (recovered : List Job) (s : JobStore)
    → (reconcile_jobs xs now limit recovered s).1.lease_generations ≡ s.lease_generations
unfolding reconcile_jobs
reconcile_jobs-generations [] now limit recovered s = refl
reconcile_jobs-generations (x ∷ xs) now limit recovered s =
    elim (Option-cases (recovery_target x (find (approves_job x) (values s.approvals)) now)) [
      | inl p ↦ ground (arith, p, reconcile_jobs-generations xs now limit recovered s)
      | inr (target, p) ↦ elim (Result-cases (recover_job x target now s).0) [
        | inr (e, q) ↦ ground (
          arith,
          p,
          q,
          recover-generations x target now s,
          reconcile_jobs-generations xs now limit recovered s,
        )
        | inl (job, q) ↦ ground (
          arith,
          p,
          q,
          recover-generations x target now s,
          reconcile_jobs-generations xs now limit recovered s,
          reconcile_jobs-generations xs now limit (recovered_jobs target job recovered)
              (recover_job x target now s).1,
        )
      ]
    ]

pub reconcile-generations :
    (now limit : ℕ) (s : JobStore)
    → (reconcile_active_jobs now limit s).1.lease_generations ≡ s.lease_generations
unfolding reconcile_active_jobs
reconcile-generations now limit s =
    reconcile_jobs-generations (sort_by job_before (values s.jobs)) now limit [] s
