-- ===== src/Jobs/Events.antt =====
-- `_validated_event_data` of store.py, and the event log of `MemoryJobStore`.
use lil_tweak.Prelude.{
  ℕ, ◌+◌, Bool, true, false, ◌&&◌, ◌||◌, String, Option, some, none, List, [], ◌∷◌, ◌++◌, any, all,
  length, nat_eq, if◌then◌else◌, ◌==◌, string_Eq, ok, err,
}
use lil_tweak.Prelude.Text.{is_blank, is_hex_text, codes}
use lil_tweak.Prelude.Table.{get, put}
use lil_tweak.Json.{Json, Fields, bool, nat, neg, real, text, get_field, field_count, is_text}
use lil_tweak.Jobs.Model.{
  value_error, job_not_found, missing_key, Answer, Job, JobEvent, JobStore, Turn,
}

abbrev pub empty_events : List String
empty_events =
    "queued" ∷ "ingesting" ∷ "planning" ∷ "executing" ∷ "testing" ∷ "collecting"
    ∷ "awaiting_approval" ∷ "rejected" ∷ "failed" ∷ "timed_out" ∷ []

abbrev pub code_events : List String
code_events =
    "admission_unavailable" ∷ "source_intake_failed" ∷ "galor_unavailable" ∷ "engineering_failed"
    ∷ []

-- `isinstance(value, int)`; a Boolean is an `int`.
abbrev pub is_int : Option Json → Bool
is_int (some (nat n)) = true
is_int (some (neg n)) = true
is_int (some (bool b)) = true
is_int _ = false

-- `isinstance(value, (int, float))`
abbrev pub is_number : Option Json → Bool
is_number (some (real r)) = true
is_number v = is_int v

-- a text of 64 characters
abbrev pub is_long_text : Option Json → Bool
is_long_text (some (text t)) = nat_eq (length (codes t)) 64
is_long_text _ = false

-- a text of 64 hexadecimal digits
abbrev pub is_digest : Option Json → Bool
is_digest (some (text t)) = is_hex_text 64 t
is_digest _ = false

abbrev pub is_present : Option Json → Bool
is_present none = false
is_present (some _) = true

-- `set(value) == {...}`
unfoldable pub has_keys : List String → Fields → Bool
has_keys keys d = nat_eq (field_count d) (length keys) && all (λ k. is_present (get_field k d)) keys

-- `value == {key: t}`
unfoldable pub is_only : String → String → Fields → Bool
is_only key t d = nat_eq (field_count d) 1 && is_text t (get_field key d)

abbrev pub has_revision : Fields → Bool
has_revision d = has_keys ("revision" ∷ []) d && is_int (get_field "revision" d)

unfoldable pub is_valid_event : String → Fields → Bool
unfolding has_keys is_only
is_valid_event kind d =
    if any (λ k. k == kind) empty_events
    then nat_eq (field_count d) 0
    else if any (λ k. k == kind) code_events
    then is_only "code" kind d
    else if kind == "cancel_requested"
    then has_revision d
    else if kind == "cancelled"
    then nat_eq (field_count d) 0 || has_revision d || is_only "code" "cancelled" d
    else if kind == "applying"
    then is_only "action" "export_patch" d
    else if kind == "completed"
    then nat_eq (field_count d) 0 || is_only "action" "export_patch" d
    else if kind == "approval_required"
    then is_text "export_patch" (get_field "action" d)
      && has_keys ("action" ∷ "proposal_digest" ∷ "source_digest" ∷ "revision" ∷ []) d
      && is_int (get_field "revision" d)
      && is_digest (get_field "proposal_digest" d)
      && is_digest (get_field "source_digest" d)
    else kind == "approved"
      && has_keys ("revision" ∷ "proposal_digest" ∷ "source_digest" ∷ "expires_at" ∷ []) d
      && is_int (get_field "revision" d)
      && is_number (get_field "expires_at" d)
      && is_long_text (get_field "proposal_digest" d)
      && is_long_text (get_field "source_digest" d)

unfoldable pub validated_event_data : String → Fields → Answer Fields
validated_event_data kind d =
    if is_valid_event kind d then ok d else err (value_error "invalid audit event")

-- `_append_event_locked`; the event takes the next number of its job.
unfoldable pub append_event_locked : String → String → Fields → ℕ → JobStore → Turn JobEvent
append_event_locked job_id kind d now s = elim (get job_id s.events) [
  | none ↦ (err missing_key, s)
  | some events ↦
      let event : JobEvent = record {
        job_id = job_id;
        sequence = length events + 1;
        kind = kind;
        data_fields = d;
        created_at = now;
      } in
      (ok event, record s { events = put job_id (events ++ event ∷ []) s.events })
]

-- `self._jobs.get(job_id)` for a job of this owner.
unfoldable pub owned_job : String → String → JobStore → Answer Job
owned_job job_id owner s = elim (get job_id s.jobs) [
  | none ↦ err job_not_found
  | some job ↦ if job.owner_id == owner then ok job else err job_not_found
]

unfoldable pub append_event : String → String → String → Fields → ℕ → JobStore → Turn JobEvent
unfolding owned_job
append_event job_id owner kind d now s =
    if is_blank kind
    then (err (value_error "event kind is required"), s)
    else elim (validated_event_data kind d) [
      | err e ↦ (err e, s)
      | ok checked ↦ elim (owned_job job_id owner s) [
        | err e ↦ (err e, s)
        | ok job ↦ append_event_locked job_id kind checked now s
      ]
    ]

unfoldable pub list_events : String → String → JobStore → Answer (List JobEvent)
unfolding owned_job
list_events job_id owner s = elim (owned_job job_id owner s) [
  | err e ↦ err e
  | ok job ↦ elim (get job_id s.events) [ none ↦ err missing_key | some events ↦ ok events ]
]
