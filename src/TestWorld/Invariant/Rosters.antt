-- ===== src/TestWorld/Invariant/Rosters.antt =====
-- Every change keeps the lists of attempts complete and within the budget of their world.
use lil_tweak.Prelude.{
  ◌≡◌, sym, ◌∙◌, ap, true, String, List, [], ◌∷◌, ◌++◌, any, length, ◌==◌, string_Eq, arith, eq_iff,
  inl, inr, any-append, length-snoc,
}
use lil_tweak.Prelude.Table.{put_found}
use lil_tweak.TestWorld.Model.{World, Attempt, Store}
use lil_tweak.TestWorld.Invariant.{IsKeyed, IsRostered}
use lil_tweak.TestWorld.Invariant.Changes.{
  Change, keep, update, admit, create, IsUpdate, IsAdmission, IsCreation,
}

module _ (s t : Store) where
  update-IsRostered : IsUpdate s t → IsKeyed s → IsRostered s → IsRostered t
  update-IsRostered u i r = record {
    listed = λ k a ids h l. elim (put_found u.key k u.new s.attempts (rw u.attempts at h)) [
      | inl (at_k, new) ↦
          rw (← at_k) (
            r.listed u.key u.old ids u.found (rw (← u.same_world) (rw new (rw u.attempt_ids at l))))
      | inr (_, old) ↦ r.listed k a ids old (rw u.attempt_ids at l)
    ];
    budget = λ w v ids h l. elim (put_found u.world'.id w u.world' s.worlds (rw u.worlds at h)) [
      | inl (at_w, new) ↦
          let same : u.old.world_id ≡ w =
            sym (i.world_key u.old.world_id u.world u.there) ∙ sym u.same_key ∙ at_w in
          ground (
            arith,
            u.same_budget,
            ap (λ (z : World). z.max_attempts) new,
            r.budget u.old.world_id u.world ids u.there (rw same (rw u.attempt_ids at l)),
          )
      | inr (_, old) ↦ r.budget w v ids old (rw u.attempt_ids at l)
    ];
  }

  has_new : (ids : List String) (k : String) → any (λ i. i == k) (ids ++ k ∷ []) ≡ true
  has_new ids k = ground (arith, any-append (λ i. i == k) ids (k ∷ []), eq_iff k k)

  entered : (x : IsAdmission s t) → IsKeyed s → x.world'.id ≡ x.attempt.world_id
  entered x i = x.same_key ∙ i.world_key x.attempt.world_id x.world x.there

  admission-IsRostered : IsAdmission s t → IsKeyed s → IsRostered s → IsRostered t
  admission-IsRostered x i r = record {
    listed = λ k a ids h l.
        elim (put_found x.attempt.world_id a.world_id (x.ids ++ x.attempt.id ∷ []) s.attempt_ids
          (rw x.attempt_ids at l)) [
            | inl (same, ids') ↦
                elim (put_found x.attempt.id k x.attempt s.attempts (rw x.attempts at h)) [
                  | inl (at_k, _) ↦ rw (← ids', ← at_k) (has_new x.ids x.attempt.id)
                  | inr (_, old) ↦ rw (← ids') (
                      ground (
                        arith,
                        any-append (λ i. i == k) x.ids (x.attempt.id ∷ []),
                        r.listed k a x.ids old (rw same at x.listed),
                      ))
                ]
            | inr (ne, oldl) ↦
                elim (put_found x.attempt.id k x.attempt s.attempts (rw x.attempts at h)) [
                  | inl (_, new) ↦ absurd (ne (ap (λ (z : Attempt). z.world_id) new))
                  | inr (_, old) ↦ r.listed k a ids old oldl
                ]
          ];
    budget = λ w v ids h l. elim (put_found x.world'.id w x.world' s.worlds (rw x.worlds at h)) [
      | inl (at_w, new) ↦
          elim (put_found x.attempt.world_id w (x.ids ++ x.attempt.id ∷ []) s.attempt_ids
            (rw x.attempt_ids at l)) [
              | inl (_, ids') ↦ ground (
                arith,
                ap length ids',
                length-snoc x.ids x.attempt.id,
                x.room,
                x.same_budget,
                ap (λ (z : World). z.max_attempts) new,
              )
              | inr (ne, _) ↦ absurd (ne (sym (entered x i) ∙ at_w))
            ]
      | inr (ne, old) ↦
          elim (put_found x.attempt.world_id w (x.ids ++ x.attempt.id ∷ []) s.attempt_ids
            (rw x.attempt_ids at l)) [
              | inl (same, _) ↦ absurd (ne (entered x i ∙ same))
              | inr (_, oldl) ↦ r.budget w v ids old oldl
            ]
    ];
  }

  creation-IsRostered : IsCreation s t → IsKeyed s → IsRostered s → IsRostered t
  creation-IsRostered c i r = record {
    listed = λ k a ids h l.
        elim (put_found c.world.id a.world_id [] s.attempt_ids (rw c.attempt_ids at l)) [
          | inl (same, _) ↦ cc (c.unused, same, (i.has_world k a (rw c.attempts at h)).1)
          | inr (_, old) ↦ r.listed k a ids (rw c.attempts at h) old
        ];
    budget = λ w v ids h l. elim (put_found c.world.id w c.world s.worlds (rw c.worlds at h)) [
      | inl (at_w, new) ↦ elim (put_found c.world.id w [] s.attempt_ids (rw c.attempt_ids at l)) [
        | inl (_, ids') ↦ omega (arith, ap length ids')
        | inr (ne, _) ↦ absurd (ne at_w)
      ]
      | inr (ne, old) ↦ elim (put_found c.world.id w [] s.attempt_ids (rw c.attempt_ids at l)) [
        | inl (same, _) ↦ absurd (ne same)
        | inr (_, oldl) ↦ r.budget w v ids old oldl
      ]
    ];
  }

pub Change-IsRostered : (s t : Store) → Change s t → IsKeyed s → IsRostered s → IsRostered t
Change-IsRostered s t (keep p q e) i r = record {
  listed = λ k a ids h l. r.listed k a ids (rw p at h) (rw e at l);
  budget = λ w v ids h l. r.budget w v ids (rw q at h) (rw e at l);
}
Change-IsRostered s t (update u) i r = update-IsRostered s t u i r
Change-IsRostered s t (admit x) i r = admission-IsRostered s t x i r
Change-IsRostered s t (create c) i r = creation-IsRostered s t c i r
