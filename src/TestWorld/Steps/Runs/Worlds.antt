-- ===== src/TestWorld/Steps/Runs/Worlds.antt =====
-- What holds of the worlds of a store after any calls.
use lil_tweak.Prelude.{
  ◌≤◌, ◌≡◌, sym, ◌∙◌, true, String, some, List, [], ◌∷◌, any, length, ◌==◌, string_Eq,
}
use lil_tweak.Prelude.Table.{get}
use lil_tweak.TestWorld.Model.{
  World, WorldStatus, Attempt, AttemptStatus, Lease, Store, empty_store, is_closed,
}
use lil_tweak.TestWorld.Checks.{has_complete_pass_proof}
use lil_tweak.TestWorld.Admission.{Hashes}
use lil_tweak.TestWorld.Invariant.{IsKeyed, IsExclusive}
use lil_tweak.TestWorld.Invariant.Kept.{Change-IsKeyed, Change-IsExclusive, Change-closed}
use lil_tweak.TestWorld.Steps.Writes.{is_running-active}
use lil_tweak.TestWorld.Steps.Reconcile.{Changes, end, change}
use lil_tweak.TestWorld.Steps.Runs.{
  Call, after, run, IsFreshRun, IsSound, after-Changes, after-IsSound, run-IsSound, empty-IsSound,
}

reached :
    (hashes : Hashes) (calls : List Call)
    → IsFreshRun hashes calls empty_store
    → IsSound (run hashes calls empty_store)
reached hashes calls fresh = run-IsSound hashes calls empty_store fresh empty-IsSound

-- After any calls whose new ids are unused, two claims for the same world stand under the same attempt: a world is never worked on under two leases.
pub one_lease_per_world :
    (hashes : Hashes) (calls : List Call) (j k : String) (l m : Lease)
    → IsFreshRun hashes calls empty_store
    → get j (run hashes calls empty_store).claims ≡ some l
    → get k (run hashes calls empty_store).claims ≡ some m
    → l.world_id ≡ m.world_id
    → l ≡ m
one_lease_per_world hashes calls j k l m fresh p q same =
    let i = reached hashes calls fresh in
    let (a, pa, ra, _, wa, _) = i.claimed.claimed j l p in
    let (b, pb, rb, _, wb, _) = i.claimed.claimed k m q in
    let at : j ≡ k =
      i.exclusive.one_active j k a b pa pb (is_running-active a.status ra)
        (is_running-active b.status rb) (sym wa ∙ same ∙ wb) in
    cc (p, q, at)

-- After any calls whose new ids are unused, a world with status `passed` has an attempt with status `passed` whose stored feedback names every check of the world, in order, as passed.
pub passed_was_proved :
    (hashes : Hashes) (calls : List Call) (k : String) (w : World)
    → IsFreshRun hashes calls empty_store
    → get k (run hashes calls empty_store).worlds ≡ some w
    → w.status ≡ WorldStatus.passed
    → (j : String) × (a : Attempt) × (get j (run hashes calls empty_store).attempts ≡ some a)
      × (a.status ≡ AttemptStatus.passed)
      × (a.world_id ≡ k)
      × (has_complete_pass_proof w a.feedback ≡ true)
passed_was_proved hashes calls k w fresh found passed =
    (reached hashes calls fresh).proved.proved k w found passed

Changes-closed :
    {s t : Store} (k : String) (w : World)
    → Changes s t
    → IsKeyed s
    → IsExclusive s
    → get k s.worlds ≡ some w
    → is_closed w.status ≡ true
    → get k t.worlds ≡ some w
Changes-closed k w end i x h closed = h
Changes-closed k w (change {s} {t} c rest) i x h closed =
    Changes-closed k w rest (Change-IsKeyed s t c i) (Change-IsExclusive s t c i x)
      (Change-closed s t k w c i x h closed) closed

run-closed :
    (hashes : Hashes) (calls : List Call) (k : String) (w : World) (s : Store)
    → IsFreshRun hashes calls s
    → IsSound s
    → get k s.worlds ≡ some w
    → is_closed w.status ≡ true
    → get k (run hashes calls s).worlds ≡ some w
unfolding run
run-closed hashes [] k w s f i h closed = h
run-closed hashes (c ∷ cs) k w s f i h closed =
    run-closed hashes cs k w (after hashes c s) f.1 (after-IsSound hashes c s f.0 i)
      (Changes-closed k w (after-Changes hashes c s f.0 i.keyed i.rostered) i.keyed i.exclusive h
        closed)
      closed

-- A world that is passed, exhausted or blocked after some calls is the same world, every field of it, after any further calls whose new ids are unused.
pub closed_world_is_final :
    (hashes : Hashes) (calls later : List Call) (k : String) (w : World)
    → IsFreshRun hashes calls empty_store
    → IsFreshRun hashes later (run hashes calls empty_store)
    → get k (run hashes calls empty_store).worlds ≡ some w
    → is_closed w.status ≡ true
    → get k (run hashes later (run hashes calls empty_store)).worlds ≡ some w
closed_world_is_final hashes calls later k w fresh fresh' found closed =
    run-closed hashes later k w (run hashes calls empty_store) fresh' (reached hashes calls fresh)
      found closed

-- After any calls whose new ids are unused, every attempt that is stored is on the list of its world, and that list is no longer than the world's `max_attempts`.
pub attempts_within_budget :
    (hashes : Hashes) (calls : List Call) (k : String) (a : Attempt) (w : World) (ids : List String)
    → IsFreshRun hashes calls empty_store
    → get k (run hashes calls empty_store).attempts ≡ some a
    → get a.world_id (run hashes calls empty_store).worlds ≡ some w
    → get a.world_id (run hashes calls empty_store).attempt_ids ≡ some ids
    → (any (λ i. i == k) ids ≡ true) × (length ids ≤ w.max_attempts)
attempts_within_budget hashes calls k a w ids fresh found there listed =
    let i = reached hashes calls fresh in
    (i.rostered.listed k a ids found listed, i.rostered.budget a.world_id w ids there listed)
