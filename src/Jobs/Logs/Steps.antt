-- ===== src/Jobs/Logs/Steps.antt =====
-- Every call of `MemoryJobStore` leaves the logs numbered.
use lil_tweak.Prelude.{
  ℕ, ◌+◌, ◌≡◌, refl, ◌∙◌, ap, ◌⊎◌, inl, inr, String, some, List, [], ◌∷◌, ◌++◌, length,
  if◌then◌else◌, string_Eq, pair_Eq, arith, Bool-cases, Option-cases, Result-cases,
}
use lil_tweak.Prelude.Text.{is_blank}
use lil_tweak.Prelude.Table.{Table, get, put}
use lil_tweak.Json.{nat, Fields, field, end}
use lil_tweak.Jobs.Model.{JobEvent, JobLease, Approval, JobStore, approval_key_Eq}
use lil_tweak.Jobs.Events.{append_event_locked, append_event, owned_job, validated_event_data}
use lil_tweak.Jobs.Nonces.{consume_nonce}
use lil_tweak.Jobs.Updates.{JobRequest, create_job, JobChange, update_job, transition_job}
use lil_tweak.Jobs.Cancels.{
  request_cancel, request_cancel_idempotent, cancelled_job, decided_before, is_cancelled,
  record_decision,
}
use lil_tweak.Jobs.Approvals.Exports.{Use, create_approval, consume_approval}
use lil_tweak.Jobs.Leases.{claim_job, renew_claim, release_claim}
use lil_tweak.Jobs.Logs.{LogStep, same, logged, LogSteps, done, next}

pub one : {s t : JobStore} → LogStep s t → LogSteps s t
one step = next step done

pub unchanged : (s t : JobStore) → t.events ≡ s.events → LogSteps s t
unchanged s t e = one (same e)

pub append_event_locked-after :
    (job_id kind : String) (d : Fields) (now : ℕ) (u : JobStore)
    → ((append_event_locked job_id kind d now u).1 ≡ u)
      ⊎ ((es : List JobEvent) × (e : JobEvent) × (get job_id u.events ≡ some es)
          × (e.sequence ≡ length es + 1)
          × ((append_event_locked job_id kind d now u).1
              ≡ record u { events = put job_id (es ++ e ∷ []) u.events }))
unfolding append_event_locked
append_event_locked-after job_id kind d now u = elim (Option-cases (get job_id u.events)) [
  | inl missing ↦ inl (ground (arith, missing))
  | inr (es, found) ↦ inr (
    es,
    record {
      job_id = job_id;
      sequence = length es + 1;
      kind = kind;
      data_fields = d;
      created_at = now;
    },
    found,
    refl,
    ground (arith, found),
  )
]

-- One event more, after changes of other parts of the state.
pub append-step :
    (job_id kind : String) (d : Fields) (now : ℕ) (s u : JobStore)
    → u.events ≡ s.events
    → LogStep s (append_event_locked job_id kind d now u).1
append-step job_id kind d now s u p = elim (append_event_locked-after job_id kind d now u) [
  | inl e ↦ same (rw e p)
  | inr (es, event, found, number, e) ↦ logged job_id es event (rw p at found) number (
      ap (λ (z : JobStore). z.events) e
      ∙ ap (λ (z : Table String (List JobEvent)). put job_id (es ++ event ∷ []) z) p)
]

pub consume_nonce-events :
    (k n : String) (now later : ℕ) (s : JobStore)
    → (consume_nonce k n now later s).1.events ≡ s.events
unfolding consume_nonce
consume_nonce-events k n now later s = ground arith

pub claim_job-events :
    (id owner worker : String) (seconds now : ℕ) (s : JobStore)
    → (claim_job id owner worker seconds now s).1.events ≡ s.events
unfolding claim_job
claim_job-events id owner worker seconds now s = ground arith

pub renew_claim-events :
    (l : JobLease) (seconds now : ℕ) (s : JobStore)
    → (renew_claim l seconds now s).1.events ≡ s.events
unfolding renew_claim
renew_claim-events l seconds now s = ground arith

pub release_claim-events : (l : JobLease) (s : JobStore) → (release_claim l s).events ≡ s.events
unfolding release_claim
release_claim-events l s = ground arith

pub update_job-events :
    (id owner : String) (revision : ℕ) (c : JobChange) (now : ℕ) (s : JobStore)
    → (update_job id owner revision c now s).1.events ≡ s.events
unfolding update_job
update_job-events id owner revision c now s = ground arith

pub request_cancel-events :
    (id owner : String) (revision now : ℕ) (s : JobStore)
    → (request_cancel id owner revision now s).1.events ≡ s.events
unfolding request_cancel
request_cancel-events id owner revision now s = ground arith

pub create_approval-events :
    (a : Approval) (now : ℕ) (s : JobStore) → (create_approval a now s).1.events ≡ s.events
unfolding create_approval
create_approval-events a now s = ground arith

pub consume_approval-events :
    (sha256 : String → String) (token : String) (u : Use) (now : ℕ) (s : JobStore)
    → (consume_approval sha256 token u now s).1.events ≡ s.events
unfolding consume_approval
consume_approval-events sha256 token u now s = ground arith

pub record_decision-events :
    (owner key hash id : String) (s : JobStore)
    → (record_decision owner key hash id s).1.events ≡ s.events
unfolding record_decision
record_decision-events owner key hash id s = ground arith

pub create_job-events :
    (fingerprint : JobRequest → String) (r : JobRequest) (id : String) (now : ℕ) (s : JobStore)
    → ((create_job fingerprint r id now s).1.events ≡ s.events)
      ⊎ ((create_job fingerprint r id now s).1.events ≡ put id [] s.events)
unfolding create_job
create_job-events fingerprint r id now s = ground arith

pub append_event-after :
    (id owner kind : String) (d : Fields) (now : ℕ) (s : JobStore)
    → ((append_event id owner kind d now s).1 ≡ s)
      ⊎ ((checked : Fields) × ((append_event id owner kind d now s).1
            ≡ (append_event_locked id kind checked now s).1))
unfolding append_event
append_event-after id owner kind d now s = elim (Result-cases (validated_event_data kind d)) [
  | inr (e, p) ↦ ground (arith, p)
  | inl (checked, p) ↦ elim (Result-cases (owned_job id owner s)) [
    | inr (e, q) ↦ ground (arith, p, q)
    | inl (job, q) ↦ elim (Bool-cases (is_blank kind)) [
      | inl blank ↦ inl (ground (arith, blank))
      | inr named ↦ inr (checked, ground (arith, p, q, named))
    ]
  ]
]

pub transition_job-after :
    (id owner : String) (revision : ℕ) (c : JobChange) (kind : String) (d : Fields) (now : ℕ)
    (s : JobStore)
    → ((transition_job id owner revision c kind d now s).1.events ≡ s.events)
      ⊎ ((checked : Fields) × ((transition_job id owner revision c kind d now s).1
            ≡ (append_event_locked id kind checked now (update_job id owner revision c now s).1).1))
unfolding transition_job
transition_job-after id owner revision c kind d now s =
    elim (Result-cases (validated_event_data kind d)) [
      | inr (e, p) ↦ inl (ground (arith, p))
      | inl (checked, p) ↦ elim (Result-cases (update_job id owner revision c now s).0) [
        | inr (e, q) ↦ inl (ground (arith, p, q, update_job-events id owner revision c now s))
        | inl (job, q) ↦ inr (checked, ground (arith, p, q))
      ]
    ]

pub cancel-after :
    (id owner : String) (revision : ℕ) (key hash : String) (now : ℕ) (s : JobStore)
    → ((request_cancel_idempotent id owner revision key hash now s).1 ≡ s)
      ⊎ ((kind : String) × (checked : Fields) × (u : JobStore) × (u.events ≡ s.events)
          × ((request_cancel_idempotent id owner revision key hash now s).1
              ≡ (append_event_locked id kind checked now u).1))
unfolding request_cancel_idempotent
cancel-after id owner revision key hash now s =
    elim (Option-cases (decided_before (owner, key) hash id s)) [
      | inr (answer, p) ↦ inl (ground (arith, p))
      | inl p ↦ elim (Result-cases (cancelled_job id owner revision now s)) [
        | inr (e, q) ↦ inl (ground (arith, p, q))
        | inl (job, q) ↦
            let kind : String =
              if is_cancelled job.state then "cancelled" else "cancel_requested" in
            elim (Result-cases
              (validated_event_data kind (field "revision" (nat job.revision) end))) [
                | inr (e, r) ↦ inl (ground (arith, p, q, r))
                | inl (checked, r) ↦ inr (
                  kind,
                  checked,
                  record s {
                    jobs = put id job s.jobs;
                    decisions = put {K = String × String} (owner, key) (hash, id) s.decisions;
                  },
                  refl,
                  ground (arith, p, q, r),
                )
              ]
      ]
    ]
