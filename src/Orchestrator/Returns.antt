-- ===== src/Orchestrator/Returns.antt =====
-- What a step of the orchestrator tells when it returns a value.
use lil_tweak.Prelude.{ℕ, ◌≡◌, sym, ◌∙◌, inl, inr, String, Option, ok, arith, Result-cases}
use lil_tweak.Jobs.Model.{Job, JobLease, JobStore, Turn, moved_to}
use lil_tweak.Jobs.Events.{validated_event_data}
use lil_tweak.Jobs.Updates.{JobChange, update_job, updated_job, transition_job, evidence_of}
use lil_tweak.Jobs.Updates.Refusals.{update_job-after}
use lil_tweak.State.{Evidence, transition, guard_target}
use lil_tweak.Contracts.{JobState}
use lil_tweak.Json.{Fields, end}
use lil_tweak.Orchestrator.Session.{M, Session, Surroundings, call, arrive, ◌>>=◌}
use lil_tweak.Orchestrator.Host.{Host}
use lil_tweak.Orchestrator.Moves.{move, renew_lease, transition_now, state_value}

-- A chain returns only if each of its steps does.
pub bind-eq-ok :
    {A B : Type 0} (m : M A) (f : A → M B) {s t : Session} {b : B}
    → (m >>= f) s ≡ (ok b, t)
    → (a : A) × (u : Session) × (m s ≡ (ok a, u)) × (f a u ≡ (ok b, t))
unfolding ◌>>=◌
bind-eq-ok m f {s} {t} {b} h = elim (Result-cases (m s).0) [
  | inl (a, e) ↦ (a, (m s).1, ground (arith, e), ground (arith, e, h))
  | inr (x, e) ↦ ground (arith, e, h)
]

moved_to-target :
    (current target reached : JobState) (e : Evidence)
    → moved_to current target e ≡ ok reached
    → reached ≡ target
unfolding moved_to transition guard_target
moved_to-target current target reached e h = ground (arith, h)

-- The job that a transition returns is the stored one, updated as was asked.
transition-state :
    (id owner : String) (revision : ℕ) (c : JobChange) (kind : String) (d : Fields) (now : ℕ)
    (s : JobStore) (j : Job)
    → (transition_job id owner revision c kind d now s).0 ≡ ok j
    → (job : Job) × (j ≡ updated_job job c c.state now)
unfolding transition_job
transition-state id owner revision c kind d now s j h =
    elim (Result-cases (validated_event_data kind d)) [
      | inr (e, p) ↦ ground (arith, h, p)
      | inl (checked, p) ↦ elim (Result-cases (update_job id owner revision c now s).0) [
        | inr (e, q) ↦ ground (arith, h, p, q)
        | inl (made, q) ↦
            let same : made ≡ j = ground (arith, h, p, q) in
            let (job, target, _, _, _, moved, built, _) =
              update_job-after id owner revision c now s (update_job id owner revision c now s).1
                made (λ i. (q i, (update_job id owner revision c now s).1)) in
            (
              job,
              rw (moved_to-target job.state c.state target (evidence_of c) moved) at
                  (sym same ∙ built),
            )
      ]
    ]

call-ok :
    {A : Type 0} (w : Surroundings) (method : ℕ → JobStore → Turn A) (s t : Session) (a : A)
    → call w method s ≡ (ok a, t)
    → (method (w.clock s.count) (arrive w s).store).0 ≡ ok a
unfolding call
call-ok w method s t a h = elim (Result-cases (method (w.clock s.count) (arrive w s).store).0) [
  | inl (b, e) ↦ ground (arith, e, h)
  | inr (x, e) ↦ ground (arith, e, h)
]

-- The job that `_move` returns is the one before, updated as was asked.
pub move-made :
    (h : Host) (job : Job) (c : JobChange) (s t : Session) (j : Job)
    → move h job c s ≡ (ok j, t)
    → (before : Job) × (lease : Option JobLease) × (now : ℕ) × (j
        ≡ updated_job before (record c { lease = lease }) c.state now)
unfolding move transition_now
move-made h job c s t j e =
    let (_, u, _, later) = bind-eq-ok (renew_lease h) _ e in
    let (before, built) =
      transition-state job.id job.owner_id job.revision (record c { lease = u.lease })
        (state_value c.state) end (h.surroundings.clock u.count) (arrive h.surroundings u).store j
        (call-ok h.surroundings _ u t j later) in
    (before, u.lease, h.surroundings.clock u.count, built)
