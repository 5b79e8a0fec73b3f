-- ===== src/TestWorld/Invariant/Kept.antt =====
-- Every change of the attempts and the worlds keeps the invariant, and leaves a closed world alone.
use lil_tweak.Prelude.{
  ◌≡◌, sym, ◌∙◌, true, String, some, ◌==◌, string_Eq, eq_iff, inl, inr, Bool-cases,
}
use lil_tweak.Prelude.Table.{get, get-put}
use lil_tweak.TestWorld.Model.{World, Store, is_closed}
use lil_tweak.TestWorld.Invariant.{IsKeyed, IsExclusive}
use lil_tweak.TestWorld.Invariant.Updates.{write, write-IsKeyed, write-IsExclusive}
use lil_tweak.TestWorld.Invariant.Changes.{
  Change, keep, update, admit, create, IsKeyed-ext, IsExclusive-ext, admission-IsKeyed,
  admission-IsExclusive, creation-IsKeyed, creation-IsExclusive, with_world,
}

pub Change-IsKeyed : (s t : Store) → Change s t → IsKeyed s → IsKeyed t
Change-IsKeyed s t (keep p q r) i = IsKeyed-ext s t p q i
Change-IsKeyed s t (update u) i = IsKeyed-ext (write u.key u.new u.world' s) t u.attempts u.worlds (
    write-IsKeyed s u.key u.old u.new u.world u.world' u.found u.there u.same_id u.same_world
      u.same_key i)
Change-IsKeyed s t (admit a) i =
    IsKeyed-ext (write a.attempt.id a.attempt a.world' s) t a.attempts a.worlds
      (admission-IsKeyed s t a i)
Change-IsKeyed s t (create c) i =
    IsKeyed-ext (with_world s t c i) t c.attempts c.worlds (creation-IsKeyed s t c i)

pub Change-IsExclusive : (s t : Store) → Change s t → IsKeyed s → IsExclusive s → IsExclusive t
Change-IsExclusive s t (keep p q r) i x = IsExclusive-ext s t p q x
Change-IsExclusive s t (update u) i x =
    IsExclusive-ext (write u.key u.new u.world' s) t u.attempts u.worlds (
      write-IsExclusive s u.key u.old u.new u.world u.world' u.found u.there u.same_id u.same_world
        u.same_key (λ _. u.acting) (λ c. (u.acting, u.closes c)) i x)
Change-IsExclusive s t (admit a) i x =
    IsExclusive-ext (write a.attempt.id a.attempt a.world' s) t a.attempts a.worlds
      (admission-IsExclusive s t a i x)
Change-IsExclusive s t (create c) i x =
    IsExclusive-ext (with_world s t c i) t c.attempts c.worlds (creation-IsExclusive s t c i x)

-- A closed world is left as it is by every change.
pub Change-closed :
    (s t : Store) (k : String) (w : World)
    → Change s t
    → IsKeyed s
    → IsExclusive s
    → get k s.worlds ≡ some w
    → is_closed w.status ≡ true
    → get k t.worlds ≡ some w
Change-closed s t k w (keep p q r) i x h closed = rw q h
Change-closed s t k w (update u) i x h closed = elim (Bool-cases (u.world'.id == k)) [
  | inl same ↦
      let e : k ≡ u.old.world_id =
        sym ((eq_iff u.world'.id k).0 same)
        ∙ u.same_key
        ∙ i.world_key u.old.world_id u.world u.there in
      cc (u.acting, x.closed_idle u.key u.old w u.found (rw e at h) closed)
  | inr other ↦ rw (u.worlds, get-put u.world'.id k u.world' s.worlds, other) h
]
Change-closed s t k w (admit a) i x h closed = elim (Bool-cases (a.world'.id == k)) [
  | inl same ↦
      let e : k ≡ a.attempt.world_id =
        sym ((eq_iff a.world'.id k).0 same)
        ∙ a.same_key
        ∙ i.world_key a.attempt.world_id a.world a.there in
      cc (a.was_open, a.there, rw e at h, closed)
  | inr other ↦ rw (a.worlds, get-put a.world'.id k a.world' s.worlds, other) h
]
Change-closed s t k w (create c) i x h closed = elim (Bool-cases (c.world.id == k)) [
  | inl same ↦ cc (c.unused, (eq_iff c.world.id k).0 same)
  | inr other ↦ rw (c.worlds, get-put c.world.id k c.world s.worlds, other) h
]
