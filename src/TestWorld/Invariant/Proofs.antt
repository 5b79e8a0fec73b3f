-- ===== src/TestWorld/Invariant/Proofs.antt =====
-- Every change keeps the proof behind a passed world.
use lil_tweak.Prelude.{◌≡◌, ◌≢◌, sym, ◌∙◌, ap, true, false, String, some, string_Eq, inl, inr}
use lil_tweak.Prelude.Table.{get, put_found, get-put_self, get-put_ne}
use lil_tweak.TestWorld.Model.{
  World, WorldStatus, Attempt, AttemptStatus, Store, is_active, is_closed,
}
use lil_tweak.TestWorld.Invariant.{IsKeyed, IsProved}
use lil_tweak.TestWorld.Invariant.Changes.{
  Change, keep, update, admit, create, IsUpdate, IsAdmission, IsCreation,
}

open_world : (w : World) → is_closed w.status ≡ false → w.status ≢ WorldStatus.passed
open_world w h p = cc (rw p at h)

-- A key of an active attempt is not one of a passed attempt.
different :
    (k j : String) (a b : Attempt) (s : Store)
    → get k s.attempts ≡ some a
    → get j s.attempts ≡ some b
    → is_active a.status ≡ true
    → b.status ≡ AttemptStatus.passed
    → k ≢ j
different k j a b s p q acting ok e =
    let same : a ≡ b = cc (p, q, e) in cc (rw (ap (λ (z : Attempt). z.status) same ∙ ok) at acting)

module _ (s t : Store) (i : IsKeyed s) (v : IsProved s) where
  update-IsProved : IsUpdate s t → IsProved t
  update-IsProved u = record {
    proved = λ k w h passed. elim (put_found u.world'.id k u.world' s.worlds (rw u.worlds at h)) [
      | inl (at_w, new) ↦
          let (ok, proof) = u.proves (ap (λ (z : World). z.status) new ∙ passed) in
          (
            u.key,
            u.new,
            rw u.attempts (get-put_self u.key u.new s.attempts),
            ok,
            u.same_world ∙ sym (i.world_key u.old.world_id u.world u.there) ∙ sym u.same_key ∙ at_w,
            rw (← new) proof,
          )
      | inr (_, old) ↦
          let (j, a, found, ok, at_k, proof) = v.proved k w old passed in
          (
            j,
            a,
            rw u.attempts (
                rw
                  (get-put_ne u.key j u.new s.attempts
                    (different u.key j u.old a s u.found found u.acting ok))
                  found),
            ok,
            at_k,
            proof,
          )
    ];
  }

  admission-IsProved : IsAdmission s t → IsProved t
  admission-IsProved a = record {
    proved = λ k w h passed. elim (put_found a.world'.id k a.world' s.worlds (rw a.worlds at h)) [
      | inl (at_w, new) ↦
          absurd (open_world a.world' a.is_open (ap (λ (z : World). z.status) new ∙ passed))
      | inr (_, old) ↦
          let (j, b, found, ok, at_k, proof) = v.proved k w old passed in
          (
            j,
            b,
            rw a.attempts (
                rw (get-put_ne a.attempt.id j a.attempt s.attempts (λ e. cc (e, a.unused, found)))
                  found),
            ok,
            at_k,
            proof,
          )
    ];
  }

  creation-IsProved : IsCreation s t → IsProved t
  creation-IsProved c = record {
    proved = λ k w h passed. elim (put_found c.world.id k c.world s.worlds (rw c.worlds at h)) [
      | inl (at_w, new) ↦
          absurd (open_world c.world c.is_open (ap (λ (z : World). z.status) new ∙ passed))
      | inr (_, old) ↦ rw c.attempts (v.proved k w old passed)
    ];
  }

pub Change-IsProved : (s t : Store) → Change s t → IsKeyed s → IsProved s → IsProved t
Change-IsProved s t (keep p q r) i v = record { proved = rw (p, q) v.proved }
Change-IsProved s t (update u) i v = update-IsProved s t i v u
Change-IsProved s t (admit a) i v = admission-IsProved s t i v a
Change-IsProved s t (create c) i v = creation-IsProved s t i v c
