-- ===== src/Orchestrator/Endings.antt =====
-- How a run of `run_job` ends.
mod Collections
pub use Collections.{IsCollected}
use lil_tweak.Prelude.{
  ℕ, ◌≡◌, refl, sym, ◌∙◌, ap, ◌⊎◌, inl, inr, Bool, true, false, not, ◌&&◌, ◌||◌, String, Option,
  some, none, any, List, [], Result, ok, err, arith, Result-cases, Option-cases, Bool-cases,
  if◌then◌else◌,
}
use lil_tweak.Prelude.Text.{is_blank}
use lil_tweak.Json.{Json, Fields, end}
use lil_tweak.Contracts.{
  JobState, queued, planning, executing, testing, collecting, awaiting_approval, completed,
  cancelled, failed, timed_out, is_terminal, max_evidence_bytes,
}
use lil_tweak.State.{is_exceptional}
use lil_tweak.Jobs.Model.{Job, JobLease, job_not_found}
use lil_tweak.Jobs.Updates.{JobChange, updated_job, get_job}
use lil_tweak.Evidence.Snapshots.{WorkspaceSnapshot}
use lil_tweak.Evidence.Patch.{build_workspace_patch}
use lil_tweak.Evidence.Bundle.{EvidenceBundle}
use lil_tweak.Orchestrator.Session.{
  M, Session, Fault, recovery_required, deadline_passed, call, read_job, reading, arrive, catch,
  lift, give, throw, ◌>>=◌, ◌>>◌,
}
use lil_tweak.Orchestrator.Host.{Host, AgentResult, AgentRequest}
use lil_tweak.Orchestrator.Moves.{move, to_state}
use lil_tweak.Orchestrator.Evidence.{needs_approval, approval_binding}
use lil_tweak.Orchestrator.Run.{
  lacks_source, capture_baseline, stop_job, recover_latest, with_clean_up, Stage, returned, going,
  after_stage, request_of, conclude, collect, bind_approval, capture_final, evidenced, attempt,
  recover, clean_up, run_job, advance,
}
use lil_tweak.Orchestrator.Returns.{bind-eq-ok, move-made}
use lil_tweak.Orchestrator.Endings.Collections.{move-state, given-eq, lifted, collect-IsCollected}

stage-inv :
    (stage : Stage) (next : Job → M Job) (u t : Session) (j : Job)
    → after_stage next stage u ≡ (ok j, t)
    → (stage ≡ returned j) ⊎ ((job : Job) × (next job u ≡ (ok j, t)))
stage-inv (returned job) next u t j e = inl (ap returned (given-eq job j u t e))
stage-inv (going job) next u t j e = inr (job, e)

returned_inj : (a b : Job) → returned a ≡ returned b → a ≡ b
returned_inj a b e = cc e

advance-returned :
    (h : Host) (c : JobChange) (job : Job) (s t : Session) (j : Job)
    → advance h c job s ≡ (ok (returned j), t)
    → j.state ≡ cancelled
unfolding advance
advance-returned h c job s t j e =
    let (moved, u, _, e1) = bind-eq-ok _ _ e in
    let (latest, v, _, e2) = bind-eq-ok _ _ e1 in
    elim (Option-cases latest) [
      | inl gone ↦ ground (arith, e2, gone)
      | inr (seen, p) ↦ elim (Bool-cases seen.cancel_requested) [
        | inr keeps_on ↦ ground (arith, e2, p, keeps_on)
        | inl stops ↦
            let (stopped, w, last, e3) =
              bind-eq-ok (move h seen (to_state cancelled)) (λ z. give (returned z)) {s = v} {t = t}
                {b = returned j} (ground (arith, e2, p, stops)) in
            let same : stopped ≡ j =
              returned_inj stopped j (given-eq (returned stopped) (returned j) w t e3) in
            rw same at (move-state h seen (to_state cancelled) v w stopped last)
      ]
    ]

-- The agent ran, and its evidence was collected.
pub record IsRun (h : Host) (j : Job) : Type 0 where
  pub began : Session
  pub baseline : WorkspaceSnapshot
  pub running : Job
  pub context : Option Fields
  pub result : AgentResult
  pub captured : (capture_baseline h began).0 ≡ ok baseline
  pub ran : h.run_agent (request_of h running context) ≡ ok result
  pub collected : IsCollected h baseline result j

attempt-ends :
    (h : Host) (started : ℕ) (job : Job) (s t : Session) (j : Job)
    → attempt h started job s ≡ (ok j, t)
    → (j.state ≡ cancelled) ⊎ IsRun h j
unfolding attempt
attempt-ends h started job s t j e =
    let (ready, s1, _, e1) = bind-eq-ok _ _ e in
    let (baseline, s2, captured, e2) = bind-eq-ok _ _ e1 in
    let (stage, s3, advanced, e3) = bind-eq-ok _ _ e2 in
    elim (stage-inv stage _ s3 t j e3) [
      | inl stops ↦ inl (advance-returned h _ ready s2 s3 j (rw stops at advanced))
      | inr (planned, e4) ↦
          let (stage', s4, advanced', e5) = bind-eq-ok _ _ e4 in
          elim (stage-inv stage' _ s4 t j e5) [
            | inl stops ↦ inl (advance-returned h _ planned s3 s4 j (rw stops at advanced'))
            | inr (running, e6) ↦
                let (context, s5, _, e7) = bind-eq-ok _ _ e6 in
                let (result, s6, ran, e8) = bind-eq-ok _ _ e7 in
                let (latest, s7, _, e9) = bind-eq-ok _ _ e8 in
                elim (Option-cases latest) [
                  | inl gone ↦ ground (arith, e9, gone)
                  | inr (seen, p) ↦ elim (Bool-cases seen.cancel_requested) [
                    | inl stops ↦ inl (
                        move-state h seen (to_state cancelled) s7 t j
                          (ground (arith, e9, p, stops)))
                    | inr goes_on ↦ inr (record {
                      baseline = baseline;
                      began = s1;
                      running = running;
                      context = context;
                      captured = λ i. (captured i).0;
                      result = result;
                      ran = lifted (h.run_agent (request_of h running context)) result s5 s6 ran;
                      collected =
                          collect-IsCollected h started baseline result seen s7 t j
                            (ground (arith, e9, p, goes_on));
                    })
                  ]
                ]
          ]
    ]

stop_job-state :
    (h : Host) (id owner : String) (e : Fault) (seen : Job) (s t : Session) (j : Job)
    → stop_job h id owner e seen s ≡ (ok j, t)
    → is_exceptional j.state ≡ true
unfolding stop_job
stop_job-state h id owner deadline_passed seen s t j r =
    rw (move-state h seen (to_state timed_out) s t j r)
stop_job-state h id owner _ seen s t j r =
    let (stopped, u, moved, r1) = bind-eq-ok _ _ r in
    let (_, v, _, r2) = bind-eq-ok _ _ r1 in
    rw (← given-eq stopped j v t r2) (rw (move-state h seen (to_state failed) s u stopped moved))

recover_latest-state :
    (h : Host) (id owner : String) (e : Fault) (latest : Option Job) (s t : Session) (j : Job)
    → recover_latest h id owner e latest s ≡ (ok j, t)
    → is_exceptional j.state ≡ true
unfolding recover_latest
recover_latest-state h id owner e none s t j r = ground (arith, r)
recover_latest-state h id owner e (some seen) s t j r = elim (Bool-cases (is_terminal seen.state)) [
  | inl over ↦ ground (arith, r, over)
  | inr open_yet ↦ elim (Bool-cases seen.cancel_requested) [
    | inl stops ↦
        rw (move-state h seen (to_state cancelled) s t j (ground (arith, r, open_yet, stops)))
    | inr goes_on ↦ stop_job-state h id owner e seen s t j (ground (arith, r, open_yet, goes_on))
  ]
]

recover-state :
    (h : Host) (id owner : String) (e : Fault) (s t : Session) (j : Job)
    → recover h id owner e s ≡ (ok j, t)
    → is_exceptional j.state ≡ true
unfolding recover
recover-state h id owner recovery_required s t j r = ground (arith, r)
recover-state h id owner e s t j r =
    let (latest, u, _, later) = bind-eq-ok _ _ r in
    recover_latest-state h id owner e latest u t j later

catch-ok :
    {A : Type 0} (m : M A) (handler : Fault → M A) (s t : Session) (a : A)
    → catch m handler s ≡ (ok a, t)
    → (m s ≡ (ok a, t)) ⊎ ((e : Fault) × (u : Session) × (handler e u ≡ (ok a, t)))
unfolding catch
catch-ok m handler s t a h = elim (Result-cases (m s).0) [
  | inl (b, p) ↦ inl (ground (arith, p, h))
  | inr (e, p) ↦ inr (e, (m s).1, ground (arith, p, h))
]

clean-ok :
    (h : Host) (r : Result Fault Job) (s t : Session) (j : Job)
    → clean_up h r s ≡ (ok j, t)
    → (r ≡ ok j) × (s ≡ t)
unfolding clean_up
clean-ok h (err recovery_required) s t j e = ground (arith, e)
clean-ok h (err _) s t j e = ground (arith, e)
clean-ok h (ok a) s t j e = ground (arith, e)

clean_up-ok :
    (h : Host) (m : M Job) (s t : Session) (j : Job)
    → with_clean_up h m s ≡ (ok j, t)
    → m s ≡ (ok j, t)
clean_up-ok h m s t j e =
    let (result, after) = clean-ok h (m s).0 (m s).1 t j e in λ i. (result i, after i)

-- How `run_job` comes to return a job: it was over before, it was stopped, or it ran to its end.
pub data Ended (h : Host) (id owner : String) (s : Session) (j : Job) : Type 0 where
  over :
      get_job id owner (arrive h.surroundings s).store ≡ some j
      → is_terminal j.state ≡ true
      → Ended h id owner s j
  stopped : is_exceptional j.state ≡ true → Ended h id owner s j
  ran_out : IsRun h j → Ended h id owner s j

attempt-Ended :
    (h : Host) (id owner : String) (before : Session) (started : ℕ) (job : Job) (s t : Session)
    (j : Job)
    → with_clean_up h (catch (attempt h started job) (recover h id owner)) s ≡ (ok j, t)
    → Ended h id owner before j
attempt-Ended h id owner before started job s t j e =
    elim (catch-ok (attempt h started job) (recover h id owner) s t j
      (clean_up-ok h (catch (attempt h started job) (recover h id owner)) s t j e)) [
        | inl tried ↦ elim (attempt-ends h started job s t j tried) [
          | inl cancels ↦ stopped (rw cancels)
          | inr ran ↦ ran_out ran
        ]
        | inr (x, u, handled) ↦ stopped (recover-state h id owner x u t j handled)
      ]

read-found :
    (h : Host) (id owner : String) (s t : Session) (found : Option Job)
    → read_job h.surroundings id owner s ≡ (ok found, t)
    → get_job id owner (arrive h.surroundings s).store ≡ found
unfolding read_job
read-found h id owner s t found e = ground (arith, e)

pub run_job-Ended :
    (h : Host) (id owner : String) (s t : Session) (j : Job)
    → run_job h id owner s ≡ (ok j, t)
    → Ended h id owner s j
unfolding run_job
run_job-Ended h id owner s t j e =
    let (found, u, read, later) = bind-eq-ok (read_job h.surroundings id owner) _ e in
    elim (Option-cases found) [
      | inl gone ↦ ground (arith, later, gone)
      | inr (job, p) ↦ elim (Bool-cases (is_terminal job.state)) [
        | inl done ↦
            let same : job ≡ j = given-eq job j u t (ground (arith, later, p, done)) in
            over (read-found h id owner s u found read ∙ p ∙ ap some same) (rw (← same) done)
        | inr open_yet ↦ elim (Bool-cases job.cancel_requested) [
          | inl cancels ↦ stopped (
              rw (
                move-state h job (to_state cancelled) u t j
                  (ground (arith, later, p, open_yet, cancels))))
          | inr wanted ↦ elim (Bool-cases (lacks_source h job)) [
            | inl lacking ↦ ground (arith, later, p, open_yet, wanted, lacking)
            | inr sourced ↦
                let (started, v, _, last) =
                  bind-eq-ok (reading h.surroundings)
                    (λ started.
                      with_clean_up h (catch (attempt h started job) (recover h id owner)))
                    {s = u} {t = t} {b = j} (ground (arith, later, p, open_yet, wanted, sourced)) in
                attempt-Ended h id owner s started job v t j last
          ]
        ]
      ]
    ]
