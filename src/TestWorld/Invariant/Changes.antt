-- ===== src/TestWorld/Invariant/Changes.antt =====
-- The ways in which a call changes the attempts and the worlds, and that each keeps the invariant.
use lil_tweak.Prelude.{◌<◌, List, [], ◌∷◌, ◌++◌, length}
use lil_tweak.Prelude.{◌≡◌, sym, ◌∙◌, ap, true, false, String, some, none, string_Eq, inl, inr}
use lil_tweak.Prelude.Table.{get, put, put_found, get-put_self, put_keeps, put-IsTable}
use lil_tweak.TestWorld.Checks.{has_complete_pass_proof}
use lil_tweak.TestWorld.Model.{
  World, WorldStatus, AttemptStatus, Attempt, Store, is_active, is_closed,
}
use lil_tweak.TestWorld.Invariant.{IsKeyed, IsExclusive}
use lil_tweak.TestWorld.Invariant.Updates.{write}

-- An attempt that is active, and its world, are written; a world is closed only if the attempt ends.
pub record IsUpdate (s t : Store) : Type 0 where
  pub key : String
  pub old : Attempt
  pub new : Attempt
  pub world : World
  pub world' : World
  pub found : get key s.attempts ≡ some old
  pub there : get old.world_id s.worlds ≡ some world
  pub acting : is_active old.status ≡ true
  pub same_id : new.id ≡ old.id
  pub same_world : new.world_id ≡ old.world_id
  pub same_key : world'.id ≡ world.id
  pub closes : is_closed world'.status ≡ true → is_active new.status ≡ false
  pub proves :
      world'.status ≡ WorldStatus.passed
      → (new.status ≡ AttemptStatus.passed) × (has_complete_pass_proof world' new.feedback ≡ true)
  pub attempts : t.attempts ≡ put key new s.attempts
  pub worlds : t.worlds ≡ put world'.id world' s.worlds
  pub same_budget : world'.max_attempts ≡ world.max_attempts
  pub attempt_ids : t.attempt_ids ≡ s.attempt_ids

-- A new attempt enters an open world that has no active attempt.
pub record IsAdmission (s t : Store) : Type 0 where
  pub attempt : Attempt
  pub world : World
  pub world' : World
  pub unused : get attempt.id s.attempts ≡ none
  pub there : get attempt.world_id s.worlds ≡ some world
  pub same_key : world'.id ≡ world.id
  pub was_open : is_closed world.status ≡ false
  pub is_open : is_closed world'.status ≡ false
  pub idle :
      (k : String) (a : Attempt)
      → get k s.attempts ≡ some a
      → a.world_id ≡ attempt.world_id
      → is_active a.status ≡ false
  pub attempts : t.attempts ≡ put attempt.id attempt s.attempts
  pub worlds : t.worlds ≡ put world'.id world' s.worlds
  pub ids : List String
  pub listed : get attempt.world_id s.attempt_ids ≡ some ids
  pub room : length ids < world.max_attempts
  pub same_budget : world'.max_attempts ≡ world.max_attempts
  pub attempt_ids : t.attempt_ids ≡ put attempt.world_id (ids ++ attempt.id ∷ []) s.attempt_ids

-- A new world.
pub record IsCreation (s t : Store) : Type 0 where
  pub world : World
  pub unused : get world.id s.worlds ≡ none
  pub is_open : is_closed world.status ≡ false
  pub attempts : t.attempts ≡ s.attempts
  pub worlds : t.worlds ≡ put world.id world s.worlds
  pub attempt_ids : t.attempt_ids ≡ put world.id [] s.attempt_ids

pub data Change (s t : Store) : Type 0 where
  keep : t.attempts ≡ s.attempts → t.worlds ≡ s.worlds → t.attempt_ids ≡ s.attempt_ids → Change s t
  update : IsUpdate s t → Change s t
  admit : IsAdmission s t → Change s t
  create : IsCreation s t → Change s t

-- The two parts of the invariant see nothing but the attempts and the worlds.
pub IsKeyed-ext :
    (s t : Store) → t.attempts ≡ s.attempts → t.worlds ≡ s.worlds → IsKeyed s → IsKeyed t
IsKeyed-ext s t p q i = record {
  distinct = rw p i.distinct;
  attempt_key = rw p i.attempt_key;
  world_key = rw q i.world_key;
  has_world = rw (p, q) i.has_world;
}

pub IsExclusive-ext :
    (s t : Store) → t.attempts ≡ s.attempts → t.worlds ≡ s.worlds → IsExclusive s → IsExclusive t
IsExclusive-ext s t p q x = record {
  one_active = rw p x.one_active;
  closed_idle = rw (p, q) x.closed_idle;
}

module _ (s t : Store) (a : IsAdmission s t) (i : IsKeyed s) where
  admitted_world : a.world'.id ≡ a.attempt.world_id
  admitted_world = a.same_key ∙ i.world_key a.attempt.world_id a.world a.there

  pub admission-IsKeyed : IsKeyed (write a.attempt.id a.attempt a.world' s)
  admission-IsKeyed = record {
    distinct = put-IsTable a.attempt.id a.attempt s.attempts i.distinct;
    attempt_key = λ j b h. elim (put_found a.attempt.id j a.attempt s.attempts h) [
      | inl (at_k, new) ↦ ap (λ (z : Attempt). z.id) (sym new) ∙ at_k
      | inr (_, old) ↦ i.attempt_key j b old
    ];
    world_key = λ j v h. elim (put_found a.world'.id j a.world' s.worlds h) [
      | inl (at_w, new) ↦ ap (λ (z : World). z.id) (sym new) ∙ at_w
      | inr (_, old) ↦ i.world_key j v old
    ];
    has_world = λ j b h. elim (put_found a.attempt.id j a.attempt s.attempts h) [
      | inl (at_k, new) ↦
          let e : a.world'.id ≡ b.world_id =
            admitted_world ∙ ap (λ (z : Attempt). z.world_id) new in
          (a.world', rw (← e) (get-put_self a.world'.id a.world' s.worlds))
      | inr (_, old) ↦ put_keeps a.world'.id b.world_id a.world' s.worlds (i.has_world j b old).1
    ];
  }

  pub admission-IsExclusive : IsExclusive s → IsExclusive (write a.attempt.id a.attempt a.world' s)
  admission-IsExclusive x = record {
    one_active = λ j l b c p q act act2 same.
        elim (put_found a.attempt.id j a.attempt s.attempts p) [
          | inl (at_j, newj) ↦ elim (put_found a.attempt.id l a.attempt s.attempts q) [
            | inl (at_l, newl) ↦ sym at_j ∙ at_l
            | inr (_, oldl) ↦
                cc (a.idle l c oldl (sym same ∙ ap (λ (z : Attempt). z.world_id) (sym newj)))
          ]
          | inr (_, oldj) ↦ elim (put_found a.attempt.id l a.attempt s.attempts q) [
            | inl (at_l, newl) ↦
                cc (a.idle j b oldj (same ∙ ap (λ (z : Attempt). z.world_id) (sym newl)))
            | inr (_, oldl) ↦ x.one_active j l b c oldj oldl act act2 same
          ]
        ];
    closed_idle = λ j b v p q closed. elim (put_found a.world'.id b.world_id a.world' s.worlds q) [
      | inl (at_w, neww) ↦ cc (a.is_open, ap (λ (z : World). is_closed z.status) neww)
      | inr (ne, oldw) ↦ elim (put_found a.attempt.id j a.attempt s.attempts p) [
        | inl (at_j, newj) ↦ absurd (ne (admitted_world ∙ ap (λ (z : Attempt). z.world_id) newj))
        | inr (_, oldj) ↦ x.closed_idle j b v oldj oldw closed
      ]
    ];
  }

module _ (s t : Store) (c : IsCreation s t) (i : IsKeyed s) where
  abbrev pub with_world : Store
  with_world = record s { worlds = put c.world.id c.world s.worlds }

  pub creation-IsKeyed : IsKeyed with_world
  creation-IsKeyed = record {
    distinct = i.distinct;
    attempt_key = i.attempt_key;
    world_key = λ j v h. elim (put_found c.world.id j c.world s.worlds h) [
      | inl (at_w, new) ↦ ap (λ (z : World). z.id) (sym new) ∙ at_w
      | inr (_, old) ↦ i.world_key j v old
    ];
    has_world = λ j b h. put_keeps c.world.id b.world_id c.world s.worlds (i.has_world j b h).1;
  }

  pub creation-IsExclusive : IsExclusive s → IsExclusive with_world
  creation-IsExclusive x = record {
    one_active = x.one_active;
    closed_idle = λ j b v p q closed. elim (put_found c.world.id b.world_id c.world s.worlds q) [
      | inl (at_w, neww) ↦ cc
      | inr (ne, oldw) ↦ x.closed_idle j b v p oldw closed
    ];
  }
