-- ===== src/Orchestrator/Traces.antt =====
-- A step of the orchestrator as a sequence of calls of the job store.
use lil_tweak.Prelude.{
  ℕ, ◌+◌, ◌≡◌, refl, Bool, true, false, String, List, [], ◌∷◌, ◌++◌, arith, Result-cases,
  if◌then◌else◌, inl, inr,
}
use lil_tweak.Jobs.Model.{JobLease, JobStore, Turn}
use lil_tweak.Json.{Fields, end}
use lil_tweak.Jobs.Updates.{JobChange}
use lil_tweak.Jobs.Logs.{JobCall, renew, move, log, job_run}
use lil_tweak.Orchestrator.Session.{
  M, Session, Fault, Surroundings, call, read_job, reading, arrive, catch, ◌>>=◌,
}

-- A call of `run_job` on the job store; the clock's reading is left out.
pub data RunnerCall : Type 0 where
  reads : RunnerCall
  renews : JobLease → ℕ → RunnerCall
  moves : String → String → ℕ → JobChange → String → RunnerCall
  logs : String → String → String → Fields → RunnerCall

unfoldable pub call_of : ℕ → RunnerCall → List JobCall
call_of now reads = []
call_of now (renews lease seconds) = renew lease seconds now ∷ []
call_of now (moves id owner revision c kind) = move id owner revision c kind end now ∷ []
call_of now (logs id owner kind d) = log id owner kind d now ∷ []

-- The store, and how many calls were made.
unfoldable pub turn : Surroundings → RunnerCall → JobStore × ℕ → JobStore × ℕ
unfolding call_of
turn w c (s, n) =
    (job_run w.digesters (call_of (w.clock n) c) (job_run w.digesters (w.others n) s), n + 1)

-- The calls one after another, with the calls of other threads before each.
unfoldable pub turns : Surroundings → List RunnerCall → JobStore × ℕ → JobStore × ℕ
unfolding turn
turns w [] a = a
turns w (c ∷ cs) a = turns w cs (turn w c a)

abbrev pub place : Session → JobStore × ℕ
place s = (s.store, s.count)

-- These calls lead the step to its end, whatever the session is.
abbrev pub Traced : {A : Type 0} → Surroundings → M A → Type 0
Traced w m = (s : Session) → (calls : List RunnerCall) × (turns w calls (place s) ≡ place (m s).1)

turns-append :
    (w : Surroundings) (a b : List RunnerCall) (z : JobStore × ℕ)
    → turns w (a ++ b) z ≡ turns w b (turns w a z)
unfolding turns
turns-append w [] b z = refl
turns-append w (c ∷ a) b z = turns-append w a b (turn w c z)

module _ (w : Surroundings) where
  pub Traced-bind :
      {A B : Type 0} (m : M A) (f : A → M B)
      → Traced w m
      → ((a : A) → Traced w (f a))
      → Traced w (m >>= f)
  unfolding ◌>>=◌
  Traced-bind m f first next s = elim (Result-cases (m s).0) [
    | inr (e, p) ↦ ((first s).0, ground (arith, p, (first s).1))
    | inl (a, p) ↦ (
      (first s).0 ++ (next a (m s).1).0,
      ground (
        arith,
        p,
        (first s).1,
        (next a (m s).1).1,
        turns-append w (first s).0 (next a (m s).1).0 (place s),
      ),
    )
  ]

  pub Traced-catch :
      {A : Type 0} (m : M A) (handler : Fault → M A)
      → Traced w m
      → ((e : Fault) → Traced w (handler e))
      → Traced w (catch m handler)
  unfolding catch
  Traced-catch m handler first next s = elim (Result-cases (m s).0) [
    | inl (a, p) ↦ ((first s).0, ground (arith, p, (first s).1))
    | inr (e, p) ↦ (
      (first s).0 ++ (next e (m s).1).0,
      ground (
        arith,
        p,
        (first s).1,
        (next e (m s).1).1,
        turns-append w (first s).0 (next e (m s).1).0 (place s),
      ),
    )
  ]

  pub Traced-if :
      {A : Type 0} (b : Bool) (m n : M A) → Traced w m → Traced w n → Traced w (if b then m else n)
  Traced-if true m n yes_case no_case = yes_case
  Traced-if false m n yes_case no_case = no_case

  pub Traced-read : (id owner : String) → Traced w (read_job w id owner)
  unfolding read_job arrive turns turn call_of job_run
  Traced-read id owner s = (reads ∷ [], refl)

  pub Traced-reading : Traced w (reading w)
  unfolding reading arrive turns turn call_of job_run
  Traced-reading s = (reads ∷ [], refl)

  -- A method that is one of the calls of the store.
  pub Traced-call :
      {A : Type 0} (method : ℕ → JobStore → Turn A) (c : RunnerCall)
      → ((now : ℕ) (s : JobStore) → job_run w.digesters (call_of now c) s ≡ (method now s).1)
      → Traced w (call w method)
  unfolding call arrive turns turn
  Traced-call method c is_call s = (
    c ∷ [],
    λ i.
        (is_call (w.clock s.count) (job_run w.digesters (w.others s.count) s.store) i, s.count + 1),
  )
