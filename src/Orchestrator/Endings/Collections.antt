-- ===== src/Orchestrator/Endings/Collections.antt =====
-- What is known of a job once its evidence is collected.
use lil_tweak.Prelude.{
  ℕ, ◌≡◌, refl, ◌∙◌, ap, Bool, true, false, String, Option, some, none, any, Result, ok, err, arith,
  if◌then◌else◌,
}
use lil_tweak.Json.{Fields}
use lil_tweak.Contracts.{JobState, awaiting_approval, completed, timed_out, max_evidence_bytes}
use lil_tweak.Jobs.Model.{Job}
use lil_tweak.Jobs.Updates.{JobChange, updated_job}
use lil_tweak.Evidence.Snapshots.{WorkspaceSnapshot}
use lil_tweak.Evidence.Patch.{build_workspace_patch}
use lil_tweak.Evidence.Bundle.{EvidenceBundle}
use lil_tweak.Orchestrator.Session.{Session, Fault, lift, give}
use lil_tweak.Orchestrator.Host.{Host, AgentResult}
use lil_tweak.Orchestrator.Moves.{move}
use lil_tweak.Orchestrator.Evidence.{needs_approval, approval_binding}
use lil_tweak.Orchestrator.Run.{conclude, collect, bind_approval, capture_final, evidenced}
use lil_tweak.Orchestrator.Returns.{bind-eq-ok, move-made}

pub move-state :
    (h : Host) (job : Job) (c : JobChange) (s t : Session) (j : Job)
    → move h job c s ≡ (ok j, t)
    → j.state ≡ c.state
unfolding updated_job
move-state h job c s t j e =
    let (before, lease, now, made) = move-made h job c s t j e in ap (λ (z : Job). z.state) made

pub given-eq : {A : Type 0} (a b : A) (s t : Session) → give a s ≡ (ok b, t) → a ≡ b
given-eq a b s t e = ground (arith, e)

-- Where `run_job` leaves a job whose evidence it collected.
abbrev end_state : Bool → Option Fields → JobState
end_state timed none = if timed then timed_out else completed
end_state timed (some _) = awaiting_approval

conclude-state :
    (h : Host) (job : Job) (source : String) (bundle : EvidenceBundle) (manifest : Fields)
    (result : AgentResult) (timed : Bool) (binding : Option Fields) (s t : Session) (j : Job)
    → conclude h job source bundle manifest result timed binding s ≡ (ok j, t)
    → j.state ≡ end_state timed binding
unfolding conclude
conclude-state h job source bundle manifest result timed none s t j e = move-state h job _ s t j e
conclude-state h job source bundle manifest result timed (some binding) s t j e =
    let (waiting, u, moved, later) = bind-eq-ok _ _ e in
    let (_, v, _, last) = bind-eq-ok _ _ later in
    rw (given-eq waiting j v t last) at (move-state h job _ s u waiting moved)

conclude-summary :
    (h : Host) (job : Job) (source : String) (bundle : EvidenceBundle) (manifest : Fields)
    (result : AgentResult) (timed : Bool) (binding : Option Fields) (s t : Session) (j : Job)
    → conclude h job source bundle manifest result timed binding s ≡ (ok j, t)
    → j.summary ≡ result.summary
unfolding conclude updated_job
conclude-summary h job source bundle manifest result timed none s t j e =
    let (before, lease, now, made) = move-made h job _ s t j e in ap (λ (z : Job). z.summary) made
conclude-summary h job source bundle manifest result timed (some binding) s t j e =
    let (waiting, u, moved, later) = bind-eq-ok _ _ e in
    let (_, v, _, last) = bind-eq-ok _ _ later in
    let (before, lease, now, made) = move-made h job _ s u waiting moved in
    rw (given-eq waiting j v t last) at (ap (λ (z : Job). z.summary) made)

bind_approval-needed :
    (h : Host) (needed : Bool) (source : String) (s t : Session) (binding : Option Fields)
    → bind_approval h needed source s ≡ (ok binding, t)
    → (timed : Bool)
    → end_state timed binding ≡ (if needed then awaiting_approval else end_state timed none)
unfolding bind_approval
bind_approval-needed h true source s t binding e timed =
    let (now, u, _, last) = bind-eq-ok _ _ e in
    rw (← given-eq (some (approval_binding h source now)) binding u t last) refl
bind_approval-needed h false source s t binding e timed = rw (← given-eq none binding s t e) refl

-- The evidence that was collected, and the state that follows from it.
pub record IsCollected (h : Host) (baseline : WorkspaceSnapshot) (result : AgentResult) (j : Job)
    : Type 0 where
  pub final : WorkspaceSnapshot
  pub patch : String
  pub timed : Bool
  pub taken : capture_final h baseline ≡ ok final
  pub patched : build_workspace_patch h.patch_tools max_evidence_bytes baseline final ≡ ok patch
  pub reported : j.summary ≡ result.summary
  pub ended : j.state ≡ (
      if needs_approval timed patch result.external_action
      then awaiting_approval
      else if timed
      then timed_out
      else completed)

pub lifted :
    {A : Type 0} (r : Result Fault A) (a : A) (s t : Session) → lift r s ≡ (ok a, t) → r ≡ ok a
lifted r a s t e = ground (arith, e)

evidenced-ok : {A : Type 0} (r : Result String A) (a : A) → evidenced r ≡ ok a → r ≡ ok a
evidenced-ok (ok b) a e = ground (arith, e)
evidenced-ok (err code) a e = cc e

pub collect-IsCollected :
    (h : Host) (started : ℕ) (baseline : WorkspaceSnapshot) (result : AgentResult) (latest : Job)
    (s t : Session) (j : Job)
    → collect h started baseline result latest s ≡ (ok j, t)
    → IsCollected h baseline result j
unfolding collect
collect-IsCollected h started baseline result latest s t j e =
    let (tested, s1, _, e1) = bind-eq-ok _ _ e in
    let (job, s2, _, e2) = bind-eq-ok _ _ e1 in
    let (final, s3, taken, e3) = bind-eq-ok _ _ e2 in
    let (patch, s4, patched, e4) = bind-eq-ok _ _ e3 in
    let (receipt, s5, _, e5) = bind-eq-ok _ _ e4 in
    let (commands, s6, _, e6) = bind-eq-ok _ _ e5 in
    let (journal, s7, _, e7) = bind-eq-ok _ _ e6 in
    let (_, s8, _, e8) = bind-eq-ok _ _ e7 in
    let (binding, s9, bound, e9) = bind-eq-ok _ _ e8 in
    let (finished, s10, _, e10) = bind-eq-ok _ _ e9 in
    let (bundle, s11, _, e11) = bind-eq-ok _ _ e10 in
    let (manifest, s12, _, e12) = bind-eq-ok _ _ e11 in
    let timed = any (λ (t : Bool). t) commands.timeouts in
    record {
      final = final;
      patch = patch;
      timed = timed;
      taken = lifted (capture_final h baseline) final s2 s3 taken;
      patched =
          evidenced-ok (build_workspace_patch h.patch_tools max_evidence_bytes baseline final) patch
            (lifted _ patch s3 s4 patched);
      reported =
          conclude-summary h job baseline.source_digest bundle manifest result timed binding s12 t j
            e12;
      ended =
          conclude-state h job baseline.source_digest bundle manifest result timed binding s12 t j
            e12
          ∙ bind_approval-needed h (needs_approval timed patch result.external_action)
              baseline.source_digest s8 s9 binding bound timed;
    }
