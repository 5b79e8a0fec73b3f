-- ===== src/Jobs/Cancels/Replays.antt =====
-- What `request_cancel_idempotent` answers to a request that is sent again.
use lil_tweak.Prelude.{
  ℕ, ◌≡◌, ◌⊎◌, inl, inr, String, some, string_Eq, pair_Eq, if◌then◌else◌, ok, arith, beq_refl,
  Result-cases, Option-cases,
}
use lil_tweak.Prelude.Table.{get, get-put_self}
use lil_tweak.Json.{nat, field, end, Fields}
use lil_tweak.Jobs.Model.{Job, JobStore}
use lil_tweak.Jobs.Events.{validated_event_data, append_event_locked}
use lil_tweak.Jobs.Cancels.{cancelled_job, decided_before, request_cancel_idempotent, is_cancelled}

append_event_locked-kept :
    (job_id kind : String) (d : Fields) (now : ℕ) (s : JobStore)
    → ((append_event_locked job_id kind d now s).1.decisions ≡ s.decisions)
      × ((append_event_locked job_id kind d now s).1.jobs ≡ s.jobs)
unfolding append_event_locked
append_event_locked-kept job_id kind d now s = ground arith

-- The cancellation is on record, and the job is stored.
abbrev IsOnRecord : String → String → String → String → JobStore → Job → Type 0
IsOnRecord id owner key hash t j =
    (get {K = String × String} (owner, key) t.decisions ≡ some (hash, id))
    × (get id t.jobs ≡ some j)

cancel-ok :
    (id owner : String) (revision : ℕ) (key hash : String) (now : ℕ) (s t : JobStore) (j : Job)
    → request_cancel_idempotent id owner revision key hash now s ≡ (ok j, t)
    → ((decided_before (owner, key) hash id s ≡ some (ok j)) × (t ≡ s))
      ⊎ IsOnRecord id owner key hash t j
unfolding request_cancel_idempotent append_event_locked
cancel-ok id owner revision key hash now s t j h =
    elim (Option-cases (decided_before (owner, key) hash id s)) [
      | inr (answer, p) ↦ inl (ground (arith, h, p), ground (arith, h, p))
      | inl p ↦ elim (Result-cases (cancelled_job id owner revision now s)) [
        | inr (e, q) ↦ ground (arith, h, p, q)
        | inl (job, q) ↦
            elim (Result-cases (
              validated_event_data
                (if is_cancelled job.state then "cancelled" else "cancel_requested")
                (field "revision" (nat job.revision) end))) [
                  | inr (e, r) ↦ ground (arith, h, p, q, r)
                  | inl (checked, r) ↦ inr (
                    ground (
                      arith,
                      h,
                      p,
                      q,
                      r,
                      get-put_self {K = String × String} (owner, key) (hash, id) s.decisions,
                    ),
                    ground (arith, h, p, q, r, get-put_self id job s.jobs),
                  )
                ]
      ]
    ]

answered :
    (id owner key hash : String) (t : JobStore) (j : Job)
    → IsOnRecord id owner key hash t j
    → decided_before (owner, key) hash id t ≡ some (ok j)
unfolding decided_before
answered id owner key hash t j (recorded, stored) =
    ground (arith, recorded, stored, beq_refl hash, beq_refl id)

replayed :
    (id owner : String) (revision : ℕ) (key hash : String) (now : ℕ) (t : JobStore) (j : Job)
    → decided_before (owner, key) hash id t ≡ some (ok j)
    → request_cancel_idempotent id owner revision key hash now t ≡ (ok j, t)
unfolding request_cancel_idempotent
replayed id owner revision key hash now t j h = ground (arith, h)

-- A cancellation that was accepted is answered with the same job when it is sent again, whatever revision it expects then and at any time, and changes nothing the second time.
pub cancel_is_idempotent :
    (id owner : String) (revision revision' : ℕ) (key hash : String) (now now' : ℕ) (s t : JobStore)
    (j : Job)
    → request_cancel_idempotent id owner revision key hash now s ≡ (ok j, t)
    → request_cancel_idempotent id owner revision' key hash now' t ≡ (ok j, t)
cancel_is_idempotent id owner revision revision' key hash now now' s t j h =
    replayed id owner revision' key hash now' t j
      (elim (cancel-ok id owner revision key hash now s t j h) [
        | inl (before, same) ↦ rw same before
        | inr kept ↦ answered id owner key hash t j kept
      ])
