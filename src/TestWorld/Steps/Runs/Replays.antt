-- ===== src/TestWorld/Steps/Runs/Replays.antt =====
-- A call that is made twice with one idempotency key.
use lil_tweak.Prelude.{ℕ, ◌≡◌, true, String, string_Eq, pair_Eq, arith, ok, beq_refl}
use lil_tweak.Prelude.Table.{get-put_self}
use lil_tweak.TestWorld.Model.{World, Attempt, AttemptMode, Store, same_mode}
use lil_tweak.TestWorld.Checks.{WorldSpec}
use lil_tweak.TestWorld.Admission.{
  Hashes, create_world, new_world, enqueue_attempt, enqueue_in, admit_attempt, fingerprint_of,
}

-- `create_world` that returned a world returns the same world when it is called again with the same definition, at any time and with any new id, and leaves the state as it is.
create_world_is_idempotent :
    (hashes : Hashes) (w : WorldSpec) (id id' : String) (now now' : ℕ) (s t : Store) (world : World)
    → create_world hashes w id now s ≡ (ok world, t)
    → create_world hashes w id' now' t ≡ (ok world, t)
unfolding create_world
create_world_is_idempotent hashes w id id' now now' s t world h = ground (
  arith,
  h,
  beq_refl (fingerprint_of hashes w),
  get-put_self id (new_world hashes w id now) s.worlds,
  get-put_self {K = String × String} (w.owner_id, w.idempotency_key) (id, fingerprint_of hashes w)
      s.world_idempotency,
)

same_mode_refl : (mode : AttemptMode) → same_mode mode mode ≡ true
same_mode_refl mode = ground arith

-- `enqueue_attempt` that returned an attempt returns the same attempt when it is called again with the same world, owner, key and mode, at any time and with any new id, and leaves the state as it is.
enqueue_attempt_is_idempotent :
    (world_id owner key id id' : String) (mode : AttemptMode) (now now' : ℕ) (s t : Store)
    (a : Attempt)
    → enqueue_attempt world_id owner key mode id now s ≡ (ok a, t)
    → enqueue_attempt world_id owner key mode id' now' t ≡ (ok a, t)
unfolding enqueue_attempt enqueue_in admit_attempt
enqueue_attempt_is_idempotent world_id owner key id id' mode now now' s t a h = ground (
  arith,
  h,
  beq_refl world_id,
  same_mode_refl mode,
  get-put_self id a s.attempts,
  get-put_self {K = String × String} (owner, key) (world_id, id, mode) s.attempt_idempotency,
)
