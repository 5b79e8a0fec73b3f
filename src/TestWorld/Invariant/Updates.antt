-- ===== src/TestWorld/Invariant/Updates.antt =====
-- How the invariant fares when one attempt and its world are written.
use lil_tweak.Prelude.{
  ◌≡◌, sym, ◌∙◌, ap, true, false, String, some, string_Eq, inl, inr, Bool-cases,
}
use lil_tweak.Prelude.Table.{get, put, put_found, get-put_self, put_keeps, put-IsTable}
use lil_tweak.TestWorld.Model.{World, Attempt, Store, is_active, is_closed}
use lil_tweak.TestWorld.Invariant.{IsKeyed, IsExclusive}

-- The store with attempt `k` and world `w'` written.
abbrev pub write : String → Attempt → World → Store → Store
write k a w s = record s { attempts = put k a s.attempts; worlds = put w.id w s.worlds }

-- `a` stands under `k` and in world `w`; `a'` and `w'` take their places.
module _ (s : Store) (k : String) (a a' : Attempt) (w w' : World)
    (found : get k s.attempts ≡ some a) (there : get a.world_id s.worlds ≡ some w)
    (same_id : a'.id ≡ a.id) (same_world : a'.world_id ≡ a.world_id) (same_key : w'.id ≡ w.id) where
  world_at : IsKeyed s → w'.id ≡ a.world_id
  world_at i = same_key ∙ i.world_key a.world_id w there

  pub write-IsKeyed : IsKeyed s → IsKeyed (write k a' w' s)
  write-IsKeyed i = record {
    distinct = put-IsTable k a' s.attempts i.distinct;
    attempt_key = λ j b h. elim (put_found k j a' s.attempts h) [
      | inl (at_k, new) ↦ cc (i.attempt_key k a found)
      | inr (_, old) ↦ i.attempt_key j b old
    ];
    world_key = λ j v h. elim (put_found w'.id j w' s.worlds h) [
      | inl (at_w, new) ↦ cc
      | inr (_, old) ↦ i.world_key j v old
    ];
    has_world = λ j b h. elim (put_found k j a' s.attempts h) [
      | inl (at_k, new) ↦
          let e : w'.id ≡ b.world_id =
            world_at i ∙ sym same_world ∙ ap (λ (z : Attempt). z.world_id) new in
          (w', rw (← e) (get-put_self w'.id w' s.worlds))
      | inr (_, old) ↦ put_keeps w'.id b.world_id w' s.worlds (i.has_world j b old).1
    ];
  }

  pub write-IsExclusive :
      (is_active a'.status ≡ true → is_active a.status ≡ true)
      → (is_closed w'.status ≡ true → (is_active a.status ≡ true) × (is_active a'.status ≡ false))
      → IsKeyed s
      → IsExclusive s
      → IsExclusive (write k a' w' s)
  write-IsExclusive active closes i x = record {
    one_active = λ j l b c p q act act2 same. elim (put_found k j a' s.attempts p) [
      | inl (jk, newj) ↦ elim (put_found k l a' s.attempts q) [
        | inl (lk, newl) ↦ sym jk ∙ lk
        | inr (_, oldl) ↦
            sym jk ∙ x.one_active k l a c found oldl (active (rw (newj) act)) act2 (cc)
      ]
      | inr (_, oldj) ↦ elim (put_found k l a' s.attempts q) [
        | inl (lk, newl) ↦ x.one_active j k b a oldj found act (active (rw newl act2)) (cc) ∙ lk
        | inr (_, oldl) ↦ x.one_active j l b c oldj oldl act act2 same
      ]
    ];
    closed_idle = λ j b v p q closed. elim (put_found k j a' s.attempts p) [
      | inl (jk, new) ↦ elim (put_found w'.id b.world_id w' s.worlds q) [
        | inl (at_w, neww) ↦ rw (← new) (closes (rw neww closed)).1
        | inr (ne, _) ↦
            absurd (ne (world_at i ∙ sym same_world ∙ ap (λ (z : Attempt). z.world_id) new))
      ]
      | inr (ne, old) ↦ elim (put_found w'.id b.world_id w' s.worlds q) [
        | inl (at_w, neww) ↦ elim (Bool-cases (is_active b.status)) [
          | inr idle ↦ idle
          | inl act ↦ absurd (
              ne (
                sym (
                  x.one_active j k b a old found act (closes (rw neww closed)).0
                    (sym at_w ∙ world_at i))))
        ]
        | inr (_, oldw) ↦ x.closed_idle j b v old oldw closed
      ]
    ];
  }
