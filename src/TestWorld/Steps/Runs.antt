-- ===== src/TestWorld/Steps/Runs.antt =====
-- Calls of `MemoryTestWorldStore` one after another, and what holds of the state after any of them.
pub mod Worlds
pub mod Generations
pub mod Fencing
pub mod Renewals
pub mod Replays
pub mod Passing
use lil_tweak.Prelude.{
  ℕ, ◌≡◌, Bool, true, false, String, Option, some, none, List, [], ◌∷◌, string_Eq, inl, inr,
}
use lil_tweak.Prelude.Table.{get}
use lil_tweak.Json.{Fields}
use lil_tweak.TestWorld.Model.{World, Attempt, AttemptMode, Lease, Store, empty_store, is_closed}
use lil_tweak.TestWorld.Checks.{WorldSpec}
use lil_tweak.TestWorld.Admission.{Hashes, create_world, enqueue_attempt}
use lil_tweak.TestWorld.Leases.{
  claim_attempt, renew_attempt, release_attempt, reconcile_active_attempts,
}
use lil_tweak.TestWorld.Results.{Report, complete_attempt, fail_attempt}
use lil_tweak.TestWorld.Invariant.{IsKeyed, IsExclusive, IsClaimed, IsRostered, IsProved}
use lil_tweak.TestWorld.Invariant.Changes.{Change}
use lil_tweak.TestWorld.Invariant.Kept.{Change-IsKeyed, Change-IsExclusive, Change-closed}
use lil_tweak.TestWorld.Invariant.Rosters.{Change-IsRostered}
use lil_tweak.TestWorld.Invariant.Proofs.{Change-IsProved}
use lil_tweak.TestWorld.Steps.Writes.{
  create_world-Change, enqueue_attempt-Change, claim_attempt-Change, renew_attempt-Change,
  release_attempt-Change,
}
use lil_tweak.TestWorld.Steps.Writes.Ends.{complete_attempt-Change, fail_attempt-Change}
use lil_tweak.TestWorld.Steps.Reconcile.{Changes, end, change, reconcile-Changes}
use lil_tweak.TestWorld.Steps.Claims.{
  create_world-IsClaimed, enqueue_attempt-IsClaimed, claim_attempt-IsClaimed,
  renew_attempt-IsClaimed, release_attempt-IsClaimed,
}
use lil_tweak.TestWorld.Steps.Claims.Ends.{
  complete_attempt-IsClaimed, fail_attempt-IsClaimed, reconcile-IsClaimed,
}

-- A call with its arguments, the clock's reading, and the new UUID where the method makes one.
pub data Call : Type 0 where
  create : WorldSpec → String → ℕ → Call
  enqueue : String → String → String → AttemptMode → String → ℕ → Call
  claim : String → String → ℕ → ℕ → Call
  renew : Lease → ℕ → ℕ → Call
  release : Lease → Call
  reconcile : ℕ → ℕ → Call
  complete : Lease → Report → ℕ → Call
  fail : Lease → List Fields → String → Bool → ℕ → ℕ → Call

-- The state that a call leaves, with or without an exception.
unfoldable pub after : Hashes → Call → Store → Store
after hashes (create w id now) s = (create_world hashes w id now s).1
after hashes (enqueue world_id owner key mode id now) s =
    (enqueue_attempt world_id owner key mode id now s).1
after hashes (claim id worker lease_seconds now) s = (claim_attempt id worker lease_seconds now s).1
after hashes (renew lease lease_seconds now) s = (renew_attempt lease lease_seconds now s).1
after hashes (release lease) s = release_attempt lease s
after hashes (reconcile now limit) s = (reconcile_active_attempts now limit s).1
after hashes (complete lease r now) s = (complete_attempt lease r now s).1
after hashes (fail lease feedback summary blocked duration_ms now) s =
    (fail_attempt lease feedback summary blocked duration_ms now s).1

unfoldable pub run : Hashes → List Call → Store → Store
run hashes [] s = s
run hashes (c ∷ cs) s = run hashes cs (after hashes c s)

-- A new UUID is the id of nothing in the store.
abbrev pub IsFresh : Call → Store → Type 0
IsFresh (create w id now) s = get id s.worlds ≡ none
IsFresh (enqueue world_id owner key mode id now) s = get id s.attempts ≡ none
IsFresh _ s = Unit

abbrev pub IsFreshRun : Hashes → List Call → Store → Type 0
IsFreshRun hashes [] s = Unit
IsFreshRun hashes (c ∷ cs) s = IsFresh c s × IsFreshRun hashes cs (after hashes c s)

pub record IsSound (s : Store) : Type 0 where
  pub keyed : IsKeyed s
  pub exclusive : IsExclusive s
  pub claimed : IsClaimed s
  pub rostered : IsRostered s
  pub proved : IsProved s

one : {s t : Store} → Change s t → Changes s t
one c = change c end

-- Every call is a row of changes.
pub after-Changes :
    (hashes : Hashes) (c : Call) (s : Store)
    → IsFresh c s
    → IsKeyed s
    → IsRostered s
    → Changes s (after hashes c s)
unfolding after
after-Changes hashes (create w id now) s f i r = one (create_world-Change hashes w id now s f)
after-Changes hashes (enqueue world_id owner key mode id now) s f i r =
    one (enqueue_attempt-Change world_id owner key id mode now s f i r)
after-Changes hashes (claim id worker lease_seconds now) s f i r =
    one (claim_attempt-Change id worker lease_seconds now s i)
after-Changes hashes (renew lease lease_seconds now) s f i r =
    one (renew_attempt-Change lease lease_seconds now s)
after-Changes hashes (release lease) s f i r = one (release_attempt-Change lease s)
after-Changes hashes (reconcile now limit) s f i r = reconcile-Changes now limit s i
after-Changes hashes (complete lease report now) s f i r =
    one (complete_attempt-Change lease report now s i)
after-Changes hashes (fail lease feedback summary blocked duration_ms now) s f i r =
    one (fail_attempt-Change lease feedback summary blocked duration_ms now s i)

after-IsClaimed :
    (hashes : Hashes) (c : Call) (s : Store)
    → IsFresh c s
    → IsKeyed s
    → IsClaimed s
    → IsClaimed (after hashes c s)
unfolding after
after-IsClaimed hashes (create w id now) s f i p = create_world-IsClaimed hashes w id now s p
after-IsClaimed hashes (enqueue world_id owner key mode id now) s f i p =
    enqueue_attempt-IsClaimed world_id owner key id mode now s f p
after-IsClaimed hashes (claim id worker lease_seconds now) s f i p =
    claim_attempt-IsClaimed id worker lease_seconds now s i p
after-IsClaimed hashes (renew lease lease_seconds now) s f i p =
    renew_attempt-IsClaimed lease lease_seconds now s p
after-IsClaimed hashes (release lease) s f i p = release_attempt-IsClaimed lease s p
after-IsClaimed hashes (reconcile now limit) s f i p = reconcile-IsClaimed now limit s p
after-IsClaimed hashes (complete lease report now) s f i p =
    complete_attempt-IsClaimed lease report now s p
after-IsClaimed hashes (fail lease feedback summary blocked duration_ms now) s f i p =
    fail_attempt-IsClaimed lease feedback summary blocked duration_ms now s i p

-- The parts of the invariant that changes keep.
record IsOrdered (s : Store) : Type 0 where
  keyed : IsKeyed s
  exclusive : IsExclusive s
  rostered : IsRostered s
  proved : IsProved s

Changes-IsOrdered : {s t : Store} → Changes s t → IsOrdered s → IsOrdered t
Changes-IsOrdered end o = o
Changes-IsOrdered (change {s} {t} c rest) o = Changes-IsOrdered rest (record {
  keyed = Change-IsKeyed s t c o.keyed;
  exclusive = Change-IsExclusive s t c o.keyed o.exclusive;
  rostered = Change-IsRostered s t c o.keyed o.rostered;
  proved = Change-IsProved s t c o.keyed o.proved;
})

pub after-IsSound :
    (hashes : Hashes) (c : Call) (s : Store) → IsFresh c s → IsSound s → IsSound (after hashes c s)
after-IsSound hashes c s f i =
    let o : IsOrdered (after hashes c s) =
      Changes-IsOrdered (after-Changes hashes c s f i.keyed i.rostered) (record {
        keyed = i.keyed;
        exclusive = i.exclusive;
        rostered = i.rostered;
        proved = i.proved;
      }) in
    record {
      keyed = o.keyed;
      exclusive = o.exclusive;
      claimed = after-IsClaimed hashes c s f i.keyed i.claimed;
      rostered = o.rostered;
      proved = o.proved;
    }

pub run-IsSound :
    (hashes : Hashes) (cs : List Call) (s : Store)
    → IsFreshRun hashes cs s
    → IsSound s
    → IsSound (run hashes cs s)
unfolding run
run-IsSound hashes [] s f i = i
run-IsSound hashes (c ∷ cs) s f i =
    run-IsSound hashes cs (after hashes c s) f.1 (after-IsSound hashes c s f.0 i)

pub empty-IsSound : IsSound empty_store
unfolding get
empty-IsSound = record {
  keyed = record {
    distinct = tt;
    attempt_key = λ k a h. cc h;
    world_key = λ k w h. cc h;
    has_world = λ k a h. cc h;
  };
  exclusive = record { one_active = λ j k a b p q _ _ _. cc p; closed_idle = λ k a w p _ _. cc p };
  claimed = record { claimed = λ k l h. cc h };
  rostered = record { listed = λ k a ids h _. cc h; budget = λ w v ids h _. cc h };
  proved = record { proved = λ k w h _. cc h };
}
