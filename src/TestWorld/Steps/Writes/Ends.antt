-- ===== src/TestWorld/Steps/Writes/Ends.antt =====
-- The calls of `MemoryTestWorldStore` that end an attempt are changes that keep the invariant.
use lil_tweak.Prelude.{
  ℕ, ◌≡◌, ◌≢◌, refl, ◌∙◌, ap, inl, inr, Bool, true, false, String, some, List, if◌then◌else◌,
  string_Eq, pair_Eq, arith,
}
use lil_tweak.Prelude.Table.{get, put}
use lil_tweak.Json.{Fields}
use lil_tweak.TestWorld.Model.{
  World, Attempt, Lease, Store, Step, WorldStatus, AttemptStatus, is_running, is_active,
}
use lil_tweak.TestWorld.Checks.{has_complete_pass_proof}
use lil_tweak.TestWorld.Leases.{same_holder, same_lease}
use lil_tweak.TestWorld.Results.{
  Report, complete_attempt, fail_attempt, finish, completed, status_after, failed_attempt,
}
use lil_tweak.TestWorld.Invariant.{IsKeyed}
use lil_tweak.TestWorld.Invariant.Changes.{Change, update}
use lil_tweak.TestWorld.Steps.{
  held_attempt-eq, complete_held-after, complete_attempt-after, fail_attempt-after, fail_held-eq,
}
use lil_tweak.TestWorld.Steps.Writes.{is_running-active, same_store}

-- An attempt that was running, and is now done, with its world.
finish-Change :
    (k : String) (old new : Attempt) (world : World) (status : WorldStatus) (now : ℕ) (s : Store)
    → get k s.attempts ≡ some old
    → get old.world_id s.worlds ≡ some world
    → is_running old.status ≡ true
    → new.id ≡ old.id
    → new.world_id ≡ old.world_id
    → is_active new.status ≡ false
    → (status ≡ WorldStatus.passed
        → (new.status ≡ AttemptStatus.passed) × (has_complete_pass_proof world new.feedback ≡ true))
    → IsKeyed s
    → Change s (finish new world status now s).1
unfolding finish has_complete_pass_proof
finish-Change k old new world status now s found there running same_id same_world done proves i =
    update (record {
      key = k;
      old = old;
      new = new;
      world = world;
      world' = record world { status = status; updated_at = now };
      found = found;
      there = there;
      acting = is_running-active old.status running;
      same_id = same_id;
      same_world = same_world;
      same_key = refl;
      closes = λ _. done;
      proves = proves;
      attempts = ap (λ (j : String). put j new s.attempts) (same_id ∙ i.attempt_key k old found);
      worlds = refl;
      same_budget = refl;
      attempt_ids = refl;
    })

completed-done :
    (a : Attempt) (r : Report) (feedback : List Fields) (now : ℕ)
    → is_active (completed a r feedback now).status ≡ false
unfolding completed
completed-done a r feedback now = ground arith

completed-proves :
    (a : Attempt) (r : Report) (feedback : List Fields) (now : ℕ) (world : World)
    → (r.passed ≡ true → has_complete_pass_proof world feedback ≡ true)
    → (if r.passed then WorldStatus.passed else status_after a world) ≡ WorldStatus.passed
    → ((completed a r feedback now).status ≡ AttemptStatus.passed)
      × (has_complete_pass_proof world (completed a r feedback now).feedback ≡ true)
unfolding completed
completed-proves a r feedback now world proof h = ground (arith, proof, h)

-- A failed attempt leaves no world passed.
failed-proves :
    (a : Attempt) (world : World) (blocked : Bool)
    → (if blocked then WorldStatus.blocked else status_after a world) ≢ WorldStatus.passed
failed-proves a world blocked h = ground (arith, h)

pub complete_attempt-Change :
    (lease : Lease) (r : Report) (now : ℕ) (s : Store)
    → IsKeyed s
    → Change s (complete_attempt lease r now s).1
unfolding completed
complete_attempt-Change lease r now s i = elim (complete_attempt-after lease r now s) [
  | inl same ↦ same_store s _ same
  | inr (attempt, feedback, _, held, e) ↦ elim (complete_held-after attempt r feedback now s) [
    | inl same ↦ same_store s _ (ap (λ (z : Step Attempt). z.1) e ∙ same)
    | inr (world, there, proof, e') ↦
        let (_, _, found, _, running) = held_attempt-eq same_holder lease s held in
        rw (e, e')
          (finish-Change lease.attempt_id attempt (completed attempt r feedback now) world _ now s
            found there running refl refl (completed-done attempt r feedback now)
            (completed-proves attempt r feedback now world proof) i)
  ]
]

pub fail_attempt-Change :
    (lease : Lease) (feedback : List Fields) (summary : String) (blocked : Bool)
    (duration_ms now : ℕ) (s : Store)
    → IsKeyed s
    → Change s (fail_attempt lease feedback summary blocked duration_ms now s).1
fail_attempt-Change lease feedback summary blocked duration_ms now s i =
    elim (fail_attempt-after lease feedback summary blocked duration_ms now s) [
      | inl same ↦ same_store s _ same
      | inr (attempt, bounded, _, held, e) ↦
          let (_, _, found, _, running) = held_attempt-eq same_lease lease s held in
          let (world, there) = i.has_world lease.attempt_id attempt found in
          rw (e, fail_held-eq attempt bounded summary blocked duration_ms now s world there)
            (finish-Change lease.attempt_id attempt
              (failed_attempt attempt bounded summary duration_ms now) world _ now s found there
              running refl refl refl (λ h. absurd (failed-proves attempt world blocked h)) i)
    ]
