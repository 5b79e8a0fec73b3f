-- ===== src/TestWorld/Steps/Reconcile.antt =====
-- The rounds of `reconcile_active_attempts`, which work on a snapshot of the attempts.
use lil_tweak.Prelude.{
  ℕ, ◌≡◌, refl, sym, ◌∙◌, ap, Bool, true, not, String, some, none, List, [], ◌∷◌, ◌++◌, length, leb,
  between, ◌==◌, string_Eq, arith, ◌||◌, ◌⊎◌, inl, inr, eq_iff, Bool-cases, Result-cases,
}
use lil_tweak.Prelude.Table.{get, put, get-put, All, values-All, values}
use lil_tweak.TestWorld.Model.{Attempt, Store, AttemptStatus, is_active, is_running}
use lil_tweak.Prelude.Sorting.{sort_by, insert_by}
use lil_tweak.TestWorld.Queries.{is_free, attempt_before}
use lil_tweak.TestWorld.Leases.{requeue, mark_running, reconcile_loop, reconcile_active_attempts}
use lil_tweak.TestWorld.Invariant.{IsKeyed}
use lil_tweak.TestWorld.Invariant.Changes.{Change}
use lil_tweak.TestWorld.Invariant.Kept.{Change-IsKeyed}
use lil_tweak.TestWorld.Steps.Writes.{is_running-active, requeue-Change}

-- One change after another.
pub data Changes : Store → Store → Type 0 where
  end : {s : Store} → Changes s s
  change : {s t u : Store} → Change s t → Changes t u → Changes s u

-- An attempt of the snapshot that was running is still queued or running, in the same world.
pub record IsCurrent (s : Store) (x : Attempt) : Type 0 where
  pub now : Attempt
  pub found : get x.id s.attempts ≡ some now
  pub acting : is_running x.status ≡ true → is_active now.status ≡ true
  pub same : x.world_id ≡ now.world_id

mark_running-attempts :
    {A : Type 0} (id : String) (now : ℕ) (value : A) (t : Store)
    → (mark_running id now value t).1.attempts ≡ t.attempts
unfolding mark_running
mark_running-attempts id now value t = ground arith

requeue-attempts :
    (a : Attempt) (now : ℕ) (s : Store)
    → (requeue a now s).1.attempts
      ≡ put a.id (record a { status = AttemptStatus.queued; started_at = none }) s.attempts
unfolding requeue
requeue-attempts a now s = mark_running-attempts a.world_id now _ _

same_now : {a b : Attempt} → some a ≡ some b → a ≡ b
same_now h = cc h

requeue-IsCurrent :
    (a x : Attempt) (now : ℕ) (s : Store)
    → IsCurrent s a
    → IsCurrent s x
    → IsCurrent (requeue a now s).1 x
requeue-IsCurrent a x now s c d = elim (Bool-cases (a.id == x.id)) [
  | inl same ↦ record {
    now = record a { status = AttemptStatus.queued; started_at = none };
    found =
        rw
          (
            requeue-attempts a now s,
            get-put a.id x.id (record a { status = AttemptStatus.queued; started_at = none })
                s.attempts,
            same,
          )
          refl;
    acting = λ _. refl;
    same =
        d.same
        ∙ sym (
            ap (λ (z : Attempt). z.world_id)
              (same_now (
                sym c.found
                ∙ ap (λ (k : String). get k s.attempts) ((eq_iff a.id x.id).0 same)
                ∙ d.found)))
        ∙ sym c.same;
  }
  | inr other ↦ record {
    now = d.now;
    found =
        rw
          (
            requeue-attempts a now s,
            get-put a.id x.id (record a { status = AttemptStatus.queued; started_at = none })
                s.attempts,
            other,
          )
          d.found;
    acting = d.acting;
    same = d.same;
  }
]

requeue-All :
    (a : Attempt) (now : ℕ) (s : Store) (xs : List Attempt)
    → IsCurrent s a
    → All (IsCurrent s) xs
    → All (IsCurrent (requeue a now s).1) xs
requeue-All a now s [] c h = tt
requeue-All a now s (x ∷ xs) c h = (requeue-IsCurrent a x now s c h.0, requeue-All a now s xs c h.1)

requeued :
    (x : Attempt) (now : ℕ) (s : Store)
    → IsCurrent s x
    → is_running x.status ≡ true
    → IsKeyed s
    → Change s (requeue x now s).1
requeued x now s c running i = requeue-Change x c.now now s c.found (c.acting running) c.same i

-- A round passes over the attempt, stops with it, or queues it and goes on.
pub round :
    (x : Attempt) (xs : List Attempt) (now limit : ℕ) (recovered : List Attempt) (s : Store)
    → ((reconcile_loop (x ∷ xs) now limit recovered s).1
        ≡ (reconcile_loop xs now limit recovered s).1)
      ⊎ ((is_running x.status ≡ true)
          × (((reconcile_loop (x ∷ xs) now limit recovered s).1 ≡ (requeue x now s).1)
              ⊎ ((queued : Attempt) × ((reconcile_loop (x ∷ xs) now limit recovered s).1
                    ≡ (reconcile_loop xs now limit
                        (recovered ++ queued ∷ [])
                        (requeue x now s).1).1))))
unfolding reconcile_loop
round x xs now limit recovered s = elim (Result-cases (requeue x now s).0) [
  | inl (queued, p) ↦
      elim (Bool-cases (leb limit (length recovered) || not (is_running x.status))) [
        | inl skip ↦ inl (rw (reconcile_loop, skip) refl)
        | inr go ↦ elim (Bool-cases (not (is_free (get x.id s.claims) now))) [
          | inl held ↦ inl (rw (reconcile_loop, go, held) refl)
          | inr free ↦ inr (ground (arith, go), inr (queued, rw (reconcile_loop, go, free, p) refl))
        ]
      ]
  | inr (e, p) ↦ ground (arith, p)
]

reconcile_loop-Changes :
    (xs : List Attempt) (now limit : ℕ) (recovered : List Attempt) (s : Store)
    → All (IsCurrent s) xs
    → IsKeyed s
    → Changes s (reconcile_loop xs now limit recovered s).1
unfolding reconcile_loop
reconcile_loop-Changes [] now limit recovered s h i = end
reconcile_loop-Changes (x ∷ xs) now limit recovered s h i =
    elim (round x xs now limit recovered s) [
      | inl e ↦ rw e (reconcile_loop-Changes xs now limit recovered s h.1 i)
      | inr (running, inl e) ↦ rw e (change (requeued x now s h.0 running i) end)
      | inr (running, inr (queued, e)) ↦ rw e (
          change (requeued x now s h.0 running i) (
            reconcile_loop-Changes xs now limit (recovered ++ queued ∷ []) (requeue x now s).1
              (requeue-All x now s xs h.0 h.1)
              (Change-IsKeyed s (requeue x now s).1 (requeued x now s h.0 running i) i)))
    ]

-- What holds of all elements of a list holds of those of the sorted list.
insert_by-All :
    {A : Type 0} (before : A → A → Bool) (P : A → Type 0) (x : A) (xs : List A)
    → P x
    → All P xs
    → All P (insert_by before x xs)
unfolding insert_by
insert_by-All before P x [] p h = (p, tt)
insert_by-All before P x (y ∷ ys) p h = elim (Bool-cases (before y x)) [
  | inl later ↦ rw later (h.0, insert_by-All before P x ys p h.1)
  | inr first ↦ rw first (p, h)
]

sort_by-All :
    {A : Type 0} (before : A → A → Bool) (P : A → Type 0) (xs : List A)
    → All P xs
    → All P (sort_by before xs)
unfolding sort_by
sort_by-All before P [] h = tt
sort_by-All before P (x ∷ xs) h =
    insert_by-All before P x (sort_by before xs) h.0 (sort_by-All before P xs h.1)

snapshot-All :
    (s : Store) → IsKeyed s → All (IsCurrent s) (sort_by attempt_before (values s.attempts))
snapshot-All s i = sort_by-All attempt_before (IsCurrent s) (values s.attempts) (
    values-All (IsCurrent s) s.attempts i.distinct (λ k a h. record {
      now = a;
      found = ap (λ (j : String). get j s.attempts) (i.attempt_key k a h) ∙ h;
      acting = is_running-active a.status;
      same = refl;
    }))

pub reconcile-Changes :
    (now limit : ℕ) (s : Store) → IsKeyed s → Changes s (reconcile_active_attempts now limit s).1
unfolding reconcile_active_attempts
reconcile-Changes now limit s i = elim (Bool-cases (not (between 1 1000 limit))) [
  | inl bad ↦ rw bad end
  | inr good ↦ rw good (
      reconcile_loop-Changes (sort_by attempt_before (values s.attempts)) now limit [] s
        (snapshot-All s i) i)
]
