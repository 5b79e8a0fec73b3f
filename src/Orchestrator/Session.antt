-- ===== src/Orchestrator/Session.antt =====
-- How core/lil_tweak/orchestrator.py meets the job store: one call after another, with the calls of
-- other threads before each.
use lil_tweak.Prelude.{ℕ, ◌+◌, Bool, String, Option, List, Result, ok, err}
use lil_tweak.Jobs.Model.{StoreError, Answer, Job, JobLease, JobStore, Turn}
use lil_tweak.Jobs.Updates.{get_job}
use lil_tweak.Jobs.Logs.{Digesters, JobCall, job_run}

-- What is raised: an exception of the store, `PromotionRecoveryRequired`, `AgentDeadlineError`, or any
-- other `Exception` with its text.
pub data Fault : Type 0 where
  raised : StoreError → Fault
  recovery_required deadline_passed : Fault
  fault : String → Fault

-- The clock's reading at the n-th call of the store, and the calls of other threads before it.
pub record Surroundings : Type 0 where
  pub digesters : Digesters
  pub clock : ℕ → ℕ
  pub others : ℕ → List JobCall

-- The store, `self.lease`, how many calls were made, and whether a snapshot directory was set up.
pub record Session : Type 0 where
  pub store : JobStore
  pub lease : Option JobLease
  pub count : ℕ
  pub staged : Bool

abbrev pub M : Type 0 → Type 0
M A = Session → Result Fault A × Session

abbrev pub give : {A : Type 0} → A → M A
give a s = (ok a, s)

abbrev pub throw : {A : Type 0} → Fault → M A
throw e s = (err e, s)

infixl 5 ◌>>=◌ ◌>>◌
-- Shut, so that a chain keeps its shape in proofs.
unfoldable pub ◌>>=◌ : {A B : Type 0} → M A → (A → M B) → M B
◌>>=◌ m next s =
    let (result, after) = m s in elim result [ err e ↦ (err e, after) | ok a ↦ next a after ]

abbrev pub ◌>>◌ : {A B : Type 0} → M A → M B → M B
m >> next = m >>= λ _. next

-- `try: m except ...: handler`
unfoldable pub catch : {A : Type 0} → M A → (Fault → M A) → M A
catch m handler s =
    let (result, after) = m s in elim result [ err e ↦ handler e after | ok a ↦ (ok a, after) ]

-- A result that is computed without the store.
abbrev pub lift : {A : Type 0} → Result Fault A → M A
lift r s = (r, s)

abbrev pub answer_of : {A : Type 0} → Answer A → Result Fault A
answer_of (err e) = err (raised e)
answer_of (ok a) = ok a

module _ (w : Surroundings) where
  -- The other threads have made their calls.
  unfoldable pub arrive : Session → Session
  arrive s = record s {
    store = job_run w.digesters (w.others s.count) s.store;
    count = s.count + 1;
  }

  -- A method of the store that writes.
  unfoldable pub call : {A : Type 0} → (ℕ → JobStore → Turn A) → M A
  unfolding arrive
  call method s =
      let here = arrive s in
      let (answer, store) = method (w.clock s.count) here.store in
      (answer_of answer, record here { store = store })

  -- `self.store.get_job(job_id, owner_id)`
  unfoldable pub read_job : String → String → M (Option Job)
  unfolding arrive
  read_job id owner s = let here = arrive s in (ok (get_job id owner here.store), here)

  -- `self.clock()`
  unfoldable pub reading : M ℕ
  unfolding arrive
  reading s = (ok (w.clock s.count), arrive s)
