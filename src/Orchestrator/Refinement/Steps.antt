-- ===== src/Orchestrator/Refinement/Steps.antt =====
-- The steps of `run_job` as sequences of calls of the job store.
use lil_tweak.Prelude.{
  ℕ, ◌≡◌, refl, sym, ap, ◌∙◌, inl, inr, Bool, String, Option, some, none, [], ◌∷◌, Result,
  Option-cases, arith, string_Eq,
}
use lil_tweak.Prelude.Table.{Table}
use lil_tweak.Json.{Fields, end}
use lil_tweak.Contracts.{queued, ingesting, testing, collecting, cancelled}
use lil_tweak.Jobs.Model.{Job, JobLease}
use lil_tweak.Jobs.Updates.{JobChange, transition_job}
use lil_tweak.Jobs.Events.{append_event}
use lil_tweak.Jobs.Leases.{renew_claim}
use lil_tweak.Jobs.Logs.{job_after, job_run}
use lil_tweak.Evidence.Snapshots.{WorkspaceSnapshot}
use lil_tweak.Evidence.Bundle.{EvidenceBundle}
use lil_tweak.Orchestrator.Session.{M, Session, Fault, call, ◌>>=◌}
use lil_tweak.Orchestrator.Host.{Host, AgentResult, Workspace, GalorResult}
use lil_tweak.Orchestrator.Moves.{
  keep_lease, renew_lease, transition_now, move, to_state, state_value,
}
use lil_tweak.Orchestrator.Evidence.{store_files, store_bundle}
use lil_tweak.Orchestrator.Run.{
  unless_cancelled, mark_staged, capture_from, context_from, conclude, collect, bind_approval,
  advance, start_up,
}
use lil_tweak.Orchestrator.Traces.{
  renews, moves, logs, call_of, turns, place, Traced, Traced-bind, Traced-if, Traced-read,
  Traced-reading, Traced-call,
}

module _ (h : Host) where
  abbrev pub Keeps : {A : Type 0} → M A → Type 0
  Keeps m = Traced h.surroundings m

  pub Keeps-log :
      (id owner kind : String) (d : Fields)
      → Keeps (call h.surroundings (λ now store. append_event id owner kind d now store))
  unfolding job_after job_run call_of
  Keeps-log id owner kind d = Traced-call h.surroundings _ (logs id owner kind d) (λ now s. refl)

  Keeps-keep : (lease : JobLease) → Keeps (keep_lease lease)
  unfolding keep_lease turns
  Keeps-keep lease = λ s. ([], refl)

  Keeps-renewal :
      (lease : JobLease)
      → Keeps (
          call h.surroundings (λ now store. renew_claim lease h.lease_seconds now store)
          >>= keep_lease)
  unfolding job_after job_run call_of
  Keeps-renewal lease =
      Traced-bind h.surroundings _ _
        (Traced-call h.surroundings _ (renews lease h.lease_seconds) (λ now s. refl)) Keeps-keep

  renew_held :
      (s : Session) (lease : JobLease)
      → s.lease ≡ some lease
      → renew_lease h s
        ≡ (call h.surroundings (λ now store. renew_claim lease h.lease_seconds now store)
              >>= keep_lease)
            s
  unfolding renew_lease
  renew_held s lease p = ground (arith, p)

  Keeps-renew : Keeps (renew_lease h)
  unfolding renew_lease turns
  Keeps-renew s = elim (Option-cases s.lease) [
    | inl none_held ↦ ([], ground (arith, none_held))
    | inr (lease, p) ↦ (
      (Keeps-renewal lease s).0,
      (Keeps-renewal lease s).1
          ∙ ap (λ (z : Result Fault (Unit {0}) × Session). place z.1) (sym (renew_held s lease p)),
    )
  ]

  Keeps-transition : (job : Job) (c : JobChange) → Keeps (transition_now h job c)
  unfolding transition_now job_after job_run call_of
  Keeps-transition job c s =
      Traced-call h.surroundings
        (λ now store.
          transition_job job.id job.owner_id job.revision (record c { lease = s.lease })
            (state_value c.state) end now store)
        (moves job.id job.owner_id job.revision (record c { lease = s.lease })
          (state_value c.state))
        (λ now t. refl) s

  pub Keeps-move : (job : Job) (c : JobChange) → Keeps (move h job c)
  unfolding move
  Keeps-move job c = Traced-bind h.surroundings _ _ Keeps-renew (λ _. Keeps-transition job c)

  Keeps-store_files :
      (prefix : String) (hashes files : Table String String)
      → Keeps (store_files h prefix hashes files)
  unfolding store_files turns
  Keeps-store_files prefix hashes [] = λ s. ([], refl)
  Keeps-store_files prefix hashes ((name, bytes) ∷ rest) =
      Traced-bind h.surroundings _ _ Keeps-renew λ _.
        Traced-bind h.surroundings _ _ (λ s. ([], refl))
          λ digest.
            Traced-bind h.surroundings _ _ (λ s. ([], refl))
              λ stored.
                Traced-bind h.surroundings _ _ (Keeps-store_files prefix hashes rest)
                  λ others s. ([], refl)

  Keeps-store_bundle :
      (owner job_id : String) (bundle : EvidenceBundle) → Keeps (store_bundle h owner job_id bundle)
  unfolding store_bundle
  Keeps-store_bundle owner job_id bundle = Keeps-store_files _ _ _

  Keeps-unless_cancelled : (job : Job) (latest : Option Job) → Keeps (unless_cancelled h job latest)
  unfolding turns
  Keeps-unless_cancelled job none = λ s. ([], refl)
  Keeps-unless_cancelled job (some seen) =
      Traced-if h.surroundings seen.cancel_requested _ _
        (Traced-bind h.surroundings _ _ (Keeps-move seen (to_state cancelled)) λ _ s. ([], refl))
        (λ s. ([], refl))

  pub Keeps-advance : (c : JobChange) (job : Job) → Keeps (advance h c job)
  unfolding advance turns
  Keeps-advance c job = Traced-bind h.surroundings _ _ (Keeps-move job c) λ moved.
      Traced-bind h.surroundings _ _ (Traced-read h.surroundings moved.id moved.owner_id)
        λ latest. Keeps-unless_cancelled moved latest

  pub Keeps-start_up : (job : Job) → Keeps (start_up h job)
  unfolding start_up turns
  Keeps-start_up job =
      Traced-bind h.surroundings _ _
        (Traced-if h.surroundings _ _ _ (Keeps-move job (to_state queued)) (λ s. ([], refl)))
        λ begun.
          Traced-if h.surroundings _ _ _ (Keeps-move begun (to_state ingesting)) (λ s. ([], refl))

  pub Keeps-capture_from : (found : Option Workspace) → Keeps (capture_from h found)
  unfolding capture_from mark_staged turns
  Keeps-capture_from none = λ s. ([], refl)
  Keeps-capture_from (some w) =
      Traced-if h.surroundings _ _ _ (λ s. ([], refl))
        (Traced-bind h.surroundings _ _ (λ s. ([], refl)) (λ _ s. ([], refl)))

  pub Keeps-context_from :
      (job : Job) (fetch : Option (Fields → GalorResult)) → Keeps (context_from h job fetch)
  unfolding context_from turns
  Keeps-context_from job none = λ s. ([], refl)
  Keeps-context_from job (some fetch) =
      Traced-if h.surroundings _ _ _
        (Traced-bind h.surroundings _ _ (Keeps-log job.id job.owner_id _ _) (λ _ s. ([], refl)))
        (λ s. ([], refl))

  Keeps-conclude :
      (job : Job) (source : String) (bundle : EvidenceBundle) (manifest : Fields)
      (result : AgentResult) (timed : Bool) (binding : Option Fields)
      → Keeps (conclude h job source bundle manifest result timed binding)
  unfolding conclude turns
  Keeps-conclude job source bundle manifest result timed none = Keeps-move job _
  Keeps-conclude job source bundle manifest result timed (some binding) =
      Traced-bind h.surroundings _ _ (Keeps-move job _) λ waiting.
        Traced-bind h.surroundings _ _ (Keeps-log waiting.id waiting.owner_id _ _) λ _ s. ([], refl)

  Keeps-bind_approval : (needed : Bool) (source : String) → Keeps (bind_approval h needed source)
  unfolding bind_approval turns
  Keeps-bind_approval needed source =
      Traced-if h.surroundings needed _ _
        (Traced-bind h.surroundings _ _ (Traced-reading h.surroundings) λ now s. ([], refl))
        (λ s. ([], refl))

  pub Keeps-collect :
      (started : ℕ) (baseline : WorkspaceSnapshot) (result : AgentResult) (latest : Job)
      → Keeps (collect h started baseline result latest)
  unfolding collect turns
  Keeps-collect started baseline result latest =
      let w = h.surroundings in
      Traced-bind w _ _ (Keeps-move latest (to_state testing)) λ tested.
        Traced-bind w _ _ (Keeps-move tested (to_state collecting)) λ job.
          Traced-bind w _ _ (λ s. ([], refl))
            λ final.
              Traced-bind w _ _ (λ s. ([], refl))
                λ patch.
                  Traced-bind w _ _ (λ s. ([], refl))
                    λ receipt.
                      Traced-bind w _ _ (λ s. ([], refl))
                        λ commands.
                          Traced-bind w _ _ (λ s. ([], refl))
                            λ journal.
                              Traced-bind w _ _ (λ s. ([], refl))
                                λ _. Traced-bind w _ _ (Keeps-bind_approval _ _) λ binding.
                                  Traced-bind w _ _ (Traced-reading w) λ finished.
                                    Traced-bind w _ _ (λ s. ([], refl))
                                      λ bundle.
                                        Traced-bind w _ _
                                          (Keeps-store_bundle job.owner_id job.id bundle)
                                          λ manifest.
                                            Keeps-conclude job _ bundle manifest result _ binding
