-- ===== src/TestWorld/Steps/Writes.antt =====
-- Every method of `MemoryTestWorldStore` is one of the changes that keep the invariant.
pub mod Ends
use lil_tweak.Prelude.{
  ℕ, ◌≡◌, ◌≢◌, refl, sym, ◌∙◌, ap, inl, inr, Bool, true, false, String, some, none, List, [], ◌∷◌,
  any, if◌then◌else◌, ◌==◌, string_Eq, pair_Eq, ok, arith, eq_iff,
}
use lil_tweak.Prelude.Table.{Table, get, put}
use lil_tweak.Json.{Fields}
use lil_tweak.TestWorld.Model.{
  World, Attempt, AttemptMode, Lease, Store, Step, WorldStatus, AttemptStatus, is_queued,
  is_running, is_active,
}
use lil_tweak.TestWorld.Checks.{WorldSpec, has_complete_pass_proof}
use lil_tweak.TestWorld.Admission.{
  Hashes, create_world, new_world, enqueue_attempt, admit_attempt, any_active, new_attempt,
}
use lil_tweak.TestWorld.Leases.{
  claim_attempt, take_lease, mark_running, renew_attempt, release_attempt, same_holder, same_lease,
  requeue,
}
use lil_tweak.TestWorld.Results.{
  Report, complete_attempt, fail_attempt, finish, completed, status_after, failed_attempt,
}
use lil_tweak.TestWorld.Invariant.{IsKeyed, IsRostered}
use lil_tweak.TestWorld.Invariant.Changes.{Change, keep, update, admit, create}
use lil_tweak.TestWorld.Steps.{
  create_world-after, enqueue_in-after, enqueue_attempt-after, claim_attempt-after,
  renew_attempt-after, release_attempt-after, held_attempt-eq, complete_held-after,
  complete_attempt-after, fail_attempt-after, fail_held-eq,
}

is_queued-active : (x : AttemptStatus) → is_queued x ≡ true → is_active x ≡ true
is_queued-active x h = ground arith

pub is_running-active : (x : AttemptStatus) → is_running x ≡ true → is_active x ≡ true
is_running-active x h = ground arith

pub same_store : (s t : Store) → t ≡ s → Change s t
same_store s t e = keep (rw e) (rw e) (rw e)

pub create_world-Change :
    (hashes : Hashes) (w : WorldSpec) (id : String) (now : ℕ) (s : Store)
    → get id s.worlds ≡ none
    → Change s (create_world hashes w id now s).1
unfolding new_world
create_world-Change hashes w id now s unused = elim (create_world-after hashes w id now s) [
  | inl same ↦ same_store s _ same
  | inr made ↦ rw made (
      create (record {
        world = new_world hashes w id now;
        unused = unused;
        is_open = refl;
        attempts = refl;
        worlds = refl;
        attempt_ids = refl;
      }))
]

-- An attempt in the list of a world without active attempts is not active.
idle_in :
    (s : Store) (ids : List String) (k : String) (a : Attempt)
    → any_active s ids ≡ ok false
    → any (λ i. i == k) ids ≡ true
    → get k s.attempts ≡ some a
    → is_active a.status ≡ false
unfolding any_active
idle_in s [] k a idle there h = cc
idle_in s (i ∷ ids) k a idle there h = ground (arith, idle_in s ids k a, eq_iff i k)

pub enqueue_attempt-Change :
    (world_id owner key id : String) (mode : AttemptMode) (now : ℕ) (s : Store)
    → get id s.attempts ≡ none
    → IsKeyed s
    → IsRostered s
    → Change s (enqueue_attempt world_id owner key mode id now s).1
unfolding admit_attempt
enqueue_attempt-Change world_id owner key id mode now s unused i r =
    elim (enqueue_attempt-after world_id owner key id mode now s) [
      | inl same ↦ same_store s _ same
      | inr (world, there, _, e) ↦ elim (enqueue_in-after world world_id owner key id mode now s) [
        | inl same ↦ same_store s _ (ap (λ (z : Step Attempt). z.1) e ∙ same)
        | inr (ids, open_world, listed, idle, room, e') ↦
            rw (e, e')
              (admit (record {
                attempt = record (new_attempt world id owner mode ids now) { world_id = world_id };
                world = world;
                world' = record world { status = WorldStatus.running; updated_at = now };
                unused = unused;
                there = there;
                same_key = refl;
                was_open = open_world;
                is_open = refl;
                idle = λ k a h same. idle_in s ids k a idle (r.listed k a ids h (rw same listed)) h;
                attempts = refl;
                worlds =
                    ap
                      (λ (k : String).
                        put k (record world { status = WorldStatus.running; updated_at = now })
                          s.worlds)
                      (sym (i.world_key world_id world there));
                ids = ids;
                listed = listed;
                room = room;
                same_budget = refl;
                attempt_ids = refl;
              }))
      ]
    ]

mark_running-eq :
    {A : Type 0} (id : String) (now : ℕ) (value : A) (t : Store) (world : World)
    → get id t.worlds ≡ some world
    → (mark_running id now value t).1 ≡ record t {
      worlds =
          put world.id (record world { status = WorldStatus.running; updated_at = now }) t.worlds;
    }
unfolding mark_running
mark_running-eq id now value t world h = ground arith

-- The world of an attempt is marked as running.
mark_running-Change :
    {A : Type 0} (id k : String) (old new : Attempt) (now : ℕ) (value : A) (s t : Store)
    → get k s.attempts ≡ some old
    → is_active old.status ≡ true
    → new.id ≡ old.id
    → new.world_id ≡ old.world_id
    → id ≡ old.world_id
    → t.attempts ≡ put k new s.attempts
    → t.worlds ≡ s.worlds
    → t.attempt_ids ≡ s.attempt_ids
    → IsKeyed s
    → Change s (mark_running id now value t).1
mark_running-Change id k old new now value s t found acting same_id same_world at_id p q e i =
    let (world, there) = i.has_world k old found in
    rw (mark_running-eq id now value t world (rw (q, at_id) there)) (
      update (record {
        key = k;
        old = old;
        new = new;
        world = world;
        world' = record world { status = WorldStatus.running; updated_at = now };
        found = found;
        there = there;
        acting = acting;
        same_id = same_id;
        same_world = same_world;
        same_key = refl;
        closes = λ h. cc h;
        proves = λ h. cc h;
        attempts = p;
        worlds =
            ap
              (λ (z : Table String World).
                put world.id (record world { status = WorldStatus.running; updated_at = now }) z)
              q;
        same_budget = refl;
        attempt_ids = e;
      }))

pub claim_attempt-Change :
    (id worker : String) (lease_seconds now : ℕ) (s : Store)
    → IsKeyed s
    → Change s (claim_attempt id worker lease_seconds now s).1
unfolding take_lease
claim_attempt-Change id worker lease_seconds now s i =
    elim (claim_attempt-after id worker lease_seconds now s) [
      | inl same ↦ same_store s _ same
      | inr (attempt, found, queued, _, e) ↦ rw e (
          mark_running-Change attempt.world_id id attempt
            (record attempt { status = AttemptStatus.running; started_at = some now }) now _ s _
            found (is_queued-active attempt.status queued) refl refl refl refl refl refl i)
    ]

pub renew_attempt-Change :
    (lease : Lease) (lease_seconds now : ℕ) (s : Store)
    → Change s (renew_attempt lease lease_seconds now s).1
renew_attempt-Change lease lease_seconds now s =
    elim (renew_attempt-after lease lease_seconds now s) [
      | inl same ↦ same_store s _ same
      | inr (current, _, _, _, e) ↦ rw e (keep refl refl refl)
    ]

pub release_attempt-Change : (lease : Lease) (s : Store) → Change s (release_attempt lease s)
release_attempt-Change lease s = elim (release_attempt-after lease s) [
  | inl same ↦ same_store s _ same
  | inr e ↦ rw e (keep refl refl refl)
]

-- `old` stands in the table for an attempt of a snapshot, which is queued again.
pub requeue-Change :
    (attempt old : Attempt) (now : ℕ) (s : Store)
    → get attempt.id s.attempts ≡ some old
    → is_active old.status ≡ true
    → attempt.world_id ≡ old.world_id
    → IsKeyed s
    → Change s (requeue attempt now s).1
unfolding requeue
requeue-Change attempt old now s found acting same i =
    mark_running-Change attempt.world_id attempt.id old
      (record attempt { status = AttemptStatus.queued; started_at = none }) now _ s _ found acting
      (sym (i.attempt_key attempt.id old found)) same same refl refl refl i
