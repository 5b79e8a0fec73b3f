-- ===== src/TestWorld/Steps/Claims.antt =====
-- Every method of `MemoryTestWorldStore` keeps the claims in step with the attempts.
pub mod Ends
use lil_tweak.Prelude.{
  ℕ, ◌+◌, ◌≡◌, refl, sym, ◌∙◌, ap, inl, inr, Bool, true, not, String, some, none, List, [], ◌∷◌,
  ◌++◌, string_Eq, pair_Eq, Bool-cases, Option-cases, between,
}
use lil_tweak.Prelude.Table.{
  Table, get, put, remove, put_found, remove_found, get-put_self, get-put_ne, values,
}
use lil_tweak.Json.{Fields}
use lil_tweak.TestWorld.Model.{
  World, Attempt, AttemptMode, Lease, Store, WorldStatus, AttemptStatus, is_running,
}
use lil_tweak.TestWorld.Checks.{WorldSpec}
use lil_tweak.Prelude.Sorting.{sort_by}
use lil_tweak.TestWorld.Queries.{attempt_before}
use lil_tweak.TestWorld.Admission.{
  Hashes, create_world, enqueue_attempt, admit_attempt, new_attempt,
}
use lil_tweak.TestWorld.Leases.{
  claim_attempt, take_lease, new_lease, generation_of, mark_running, renew_attempt, release_attempt,
  same_lease, requeue, reconcile_loop, reconcile_active_attempts,
}
use lil_tweak.TestWorld.Results.{
  Report, complete_attempt, fail_attempt, finish, completed, failed_attempt,
}
use lil_tweak.TestWorld.Invariant.{IsKeyed, IsClaimed}
use lil_tweak.TestWorld.Steps.{
  create_world-after, enqueue_in-after, enqueue_attempt-after, claim_attempt-after,
  renew_attempt-after, release_attempt-after, held_attempt-eq, complete_held-after,
  complete_attempt-after, fail_attempt-after, fail_held-eq,
}
use lil_tweak.TestWorld.Steps.Reconcile.{round}

-- The part of the state that the property reads.
IsClaimed-ext :
    (s t : Store)
    → t.attempts ≡ s.attempts
    → t.claims ≡ s.claims
    → t.generations ≡ s.generations
    → IsClaimed s
    → IsClaimed t
IsClaimed-ext s t p q r c = record { claimed = rw (p, q, r) c.claimed }

-- An attempt is written, and its claim dropped.
pub drop-IsClaimed :
    (k : String) (a : Attempt) (s t : Store)
    → t.attempts ≡ put k a s.attempts
    → t.claims ≡ remove k s.claims
    → t.generations ≡ s.generations
    → IsClaimed s
    → IsClaimed t
drop-IsClaimed k a s t p q r c = record {
  claimed = λ j l h.
      let (ne, old) = remove_found k j s.claims (rw q at h) in
      let (b, found, act, i, w, g) = c.claimed j l old in
      (b, rw p (rw (get-put_ne k j a s.attempts ne) found), act, i, w, rw r g);
}

put_reads :
    {V : Type 0} (k j : String) (v : V) (t u : Table String V)
    → k ≡ j
    → u ≡ put k v t
    → get j u ≡ some v
put_reads k j v t u at_k p = rw (p, ← at_k) (get-put_self k v t)

-- An attempt that runs is written with its claim and its generation.
take-IsClaimed :
    (k : String) (a : Attempt) (lease : Lease) (s t : Store)
    → is_running a.status ≡ true
    → lease.attempt_id ≡ k
    → lease.world_id ≡ a.world_id
    → t.attempts ≡ put k a s.attempts
    → t.claims ≡ put k lease s.claims
    → t.generations ≡ put k lease.generation s.generations
    → IsClaimed s
    → IsClaimed t
take-IsClaimed k a lease s t running same_id same_world p q r c = record {
  claimed = λ j l h. elim (put_found k j lease s.claims (rw q at h)) [
    | inl (at_k, new) ↦ (
      a,
      put_reads k j a s.attempts t.attempts at_k p,
      running,
      ap (λ (z : Lease). z.attempt_id) (sym new) ∙ same_id ∙ at_k,
      ap (λ (z : Lease). z.world_id) (sym new) ∙ same_world,
      put_reads k j lease.generation s.generations t.generations at_k r
          ∙ ap (λ (z : Lease). some z.generation) new,
    )
    | inr (ne, old) ↦
        let (b, found, act, i, w, g) = c.claimed j l old in
        (
          b,
          rw p (rw (get-put_ne k j a s.attempts ne) found),
          act,
          i,
          w,
          rw r (rw (get-put_ne k j lease.generation s.generations ne) g),
        )
  ];
}

pub mark_running-IsClaimed :
    {A : Type 0} (id : String) (now : ℕ) (value : A) (s : Store)
    → IsClaimed s
    → IsClaimed (mark_running id now value s).1
unfolding mark_running
mark_running-IsClaimed id now value s c = elim (Option-cases (get id s.worlds)) [
  | inl missing ↦ rw (mark_running, missing) c
  | inr (world, there) ↦ rw (mark_running, there) (IsClaimed-ext s _ refl refl refl c)
]

pub create_world-IsClaimed :
    (hashes : Hashes) (w : WorldSpec) (id : String) (now : ℕ) (s : Store)
    → IsClaimed s
    → IsClaimed (create_world hashes w id now s).1
create_world-IsClaimed hashes w id now s c = elim (create_world-after hashes w id now s) [
  | inl same ↦ rw same c
  | inr made ↦ rw made (IsClaimed-ext s _ refl refl refl c)
]

-- No claim stands under a key that no attempt has.
admit-IsClaimed :
    (world : World) (world_id owner key id : String) (mode : AttemptMode) (ids : List String)
    (now : ℕ) (s : Store)
    → get id s.attempts ≡ none
    → IsClaimed s
    → IsClaimed (admit_attempt world world_id owner key id mode ids now s).1
unfolding admit_attempt
admit-IsClaimed world world_id owner key id mode ids now s unused c = record {
  claimed = λ j l h.
      let (b, found, act, i, w, g) = c.claimed j l h in
      (
        b,
        rw
            (get-put_ne id j
              (record (new_attempt world id owner mode ids now) { world_id = world_id }) s.attempts
              (λ e. cc (e, unused, found)))
            found,
        act,
        i,
        w,
        g,
      );
}

pub enqueue_attempt-IsClaimed :
    (world_id owner key id : String) (mode : AttemptMode) (now : ℕ) (s : Store)
    → get id s.attempts ≡ none
    → IsClaimed s
    → IsClaimed (enqueue_attempt world_id owner key mode id now s).1
enqueue_attempt-IsClaimed world_id owner key id mode now s unused c =
    elim (enqueue_attempt-after world_id owner key id mode now s) [
      | inl same ↦ rw same c
      | inr (world, there, _, e) ↦ elim (enqueue_in-after world world_id owner key id mode now s) [
        | inl same ↦ rw (e, same) c
        | inr (ids, open_world, listed, idle, room, e') ↦
            rw (e, e') (admit-IsClaimed world world_id owner key id mode ids now s unused c)
      ]
    ]

pub claim_attempt-IsClaimed :
    (id worker : String) (lease_seconds now : ℕ) (s : Store)
    → IsKeyed s
    → IsClaimed s
    → IsClaimed (claim_attempt id worker lease_seconds now s).1
unfolding take_lease new_lease
claim_attempt-IsClaimed id worker lease_seconds now s i c =
    elim (claim_attempt-after id worker lease_seconds now s) [
      | inl same ↦ rw same c
      | inr (attempt, found, queued, _, e) ↦ rw e (
          mark_running-IsClaimed attempt.world_id now _ _ (
            take-IsClaimed id
              (record attempt { status = AttemptStatus.running; started_at = some now })
              (new_lease attempt worker (generation_of id s + 1) (now + lease_seconds)) s _ refl
              (i.attempt_key id attempt found) refl refl refl refl c))
    ]

pub renew_attempt-IsClaimed :
    (lease : Lease) (lease_seconds now : ℕ) (s : Store)
    → IsClaimed s
    → IsClaimed (renew_attempt lease lease_seconds now s).1
renew_attempt-IsClaimed lease lease_seconds now s c =
    elim (renew_attempt-after lease lease_seconds now s) [
      | inl same ↦ rw same c
      | inr (current, held, _, _, e) ↦ rw e (record {
        claimed = λ j l h.
            elim (put_found lease.attempt_id j (record current { expires_at = now + lease_seconds })
              s.claims h) [
                | inl (at_k, new) ↦
                    let (a, found, act, i, w, g) = c.claimed lease.attempt_id current held in
                    (
                      a,
                      ap (λ (k : String). get k s.attempts) (sym at_k) ∙ found,
                      act,
                      ap (λ (z : Lease). z.attempt_id) (sym new) ∙ i ∙ at_k,
                      ap (λ (z : Lease). z.world_id) (sym new) ∙ w,
                      ap (λ (k : String). get k s.generations) (sym at_k)
                          ∙ g
                          ∙ ap (λ (z : Lease). some z.generation) new,
                    )
                | inr (_, old) ↦ c.claimed j l old
              ];
      })
    ]

pub release_attempt-IsClaimed :
    (lease : Lease) (s : Store) → IsClaimed s → IsClaimed (release_attempt lease s)
release_attempt-IsClaimed lease s c = elim (release_attempt-after lease s) [
  | inl same ↦ rw same c
  | inr e ↦
      rw e
        (record { claimed = λ j l h. c.claimed j l (remove_found lease.attempt_id j s.claims h).1 })
]
