-- ===== src/TestWorld/Invariant.antt =====
-- What holds of a test-world store between two calls, in five parts.
pub mod Updates
pub mod Changes
pub mod Kept
pub mod Rosters
pub mod Proofs
use lil_tweak.Prelude.{
  ℕ, ◌≤◌, ◌≡◌, Bool, true, false, String, Option, some, List, any, length, ◌==◌, string_Eq,
}
use lil_tweak.Prelude.Table.{get, IsTable}
use lil_tweak.TestWorld.Checks.{has_complete_pass_proof}
use lil_tweak.TestWorld.Model.{
  World, WorldStatus, Attempt, AttemptStatus, Lease, Store, is_active, is_running, is_closed,
}

-- Records stand under their own names, and the world of an attempt is there.
pub record IsKeyed (s : Store) : Type 0 where
  pub distinct : IsTable s.attempts
  pub attempt_key : (k : String) (a : Attempt) → get k s.attempts ≡ some a → a.id ≡ k
  pub world_key : (k : String) (w : World) → get k s.worlds ≡ some w → w.id ≡ k
  pub has_world :
      (k : String) (a : Attempt)
      → get k s.attempts ≡ some a
      → (w : World) × (get a.world_id s.worlds ≡ some w)

-- A world has at most one attempt that is queued or running, and a closed world has none.
pub record IsExclusive (s : Store) : Type 0 where
  pub one_active :
      (j k : String) (a b : Attempt)
      → get j s.attempts ≡ some a
      → get k s.attempts ≡ some b
      → is_active a.status ≡ true
      → is_active b.status ≡ true
      → a.world_id ≡ b.world_id
      → j ≡ k
  pub closed_idle :
      (k : String) (a : Attempt) (w : World)
      → get k s.attempts ≡ some a
      → get a.world_id s.worlds ≡ some w
      → is_closed w.status ≡ true
      → is_active a.status ≡ false

-- A claim is of a running attempt, names it and its world, and has the latest generation.
pub record IsClaimed (s : Store) : Type 0 where
  pub claimed :
      (k : String) (l : Lease)
      → get k s.claims ≡ some l
      → (a : Attempt) × (get k s.attempts ≡ some a)
        × (is_running a.status ≡ true)
        × (l.attempt_id ≡ k)
        × (l.world_id ≡ a.world_id)
        × (get k s.generations ≡ some l.generation)

-- The list of a world names its attempts, and is no longer than the world's budget.
pub record IsRostered (s : Store) : Type 0 where
  pub listed :
      (k : String) (a : Attempt) (ids : List String)
      → get k s.attempts ≡ some a
      → get a.world_id s.attempt_ids ≡ some ids
      → any (λ i. i == k) ids ≡ true
  pub budget :
      (w : String) (v : World) (ids : List String)
      → get w s.worlds ≡ some v
      → get w s.attempt_ids ≡ some ids
      → length ids ≤ v.max_attempts

-- A passed world has a passed attempt whose feedback is a proof of all its checks.
pub record IsProved (s : Store) : Type 0 where
  pub proved :
      (k : String) (w : World)
      → get k s.worlds ≡ some w
      → w.status ≡ WorldStatus.passed
      → (j : String) × (a : Attempt) × (get j s.attempts ≡ some a)
        × (a.status ≡ AttemptStatus.passed)
        × (a.world_id ≡ k)
        × (has_complete_pass_proof w a.feedback ≡ true)
