-- ===== src/TestWorld/Checks.antt =====
-- The validators of test_world.py, and the proof that every check of a world passed.
use text.Mathlib.Text.{starts_with}
use lil_tweak.Prelude.{
  ℕ, ◌+◌, ◌*◌, Bool, true, false, not, ◌&&◌, ◌||◌, String, List, [], ◌∷◌, all, length, leb, ltb,
  nat_eq, between, if◌then◌else◌, string_Eq, ok, err,
}
use lil_tweak.Prelude.Text.{utf8_len, is_blank, strip, is_hex_text}
use lil_tweak.Json.{Fields, get_field, is_text, is_true}
use lil_tweak.Json.Text.{fields_bytes, are_fields_dumpable}
use lil_tweak.TestWorld.Model.{bad_value, Outcome, TestCheck, World}

abbrev pub max_patch_bytes : ℕ
max_patch_bytes = 2 * 1024 * 1024

abbrev pub max_feedback_bytes : ℕ
max_feedback_bytes = 256 * 1024

abbrev pub max_duration_ms : ℕ
max_duration_ms = 24 * 60 * 60 * 1000

-- `TestCheck.__post_init__`, negated: the test is valid.
unfoldable pub is_valid_check : TestCheck → Bool
is_valid_check c =
    not (is_blank (strip c.name))
    && leb (utf8_len c.name) 200
    && between 1 128 (length c.command)
    && all (λ part. not (is_blank part) && leb (utf8_len part) 4096) c.command
    && between 1 1200 c.timeout_seconds

-- The arguments of `create_world`.
pub record WorldSpec : Type 0 where
  pub owner_id : String
  pub idempotency_key : String
  pub name : String
  pub objective : String
  pub repository_url : String
  pub commit : String
  pub checks : List TestCheck
  pub max_attempts : ℕ

-- `_validate_world_definition`; the elements of `checks` were checked when they were made.
unfoldable pub is_valid_world : WorldSpec → Bool
is_valid_world w =
    not (is_blank w.owner_id)
    && not (is_blank w.idempotency_key)
    && leb (utf8_len w.idempotency_key) 200
    && not (is_blank (strip w.name))
    && leb (utf8_len w.name) 240
    && not (is_blank (strip w.objective))
    && leb (utf8_len w.objective) 16_000
    && starts_with w.repository_url "https://"
    && leb (utf8_len w.repository_url) 2048
    && (is_hex_text 40 w.commit || is_hex_text 64 w.commit)
    && between 1 8 (length w.checks)
    && between 1 10 w.max_attempts

-- The sizes of the dictionaries in a list, with a comma between two of them.
dicts_bytes : List Fields → ℕ
dicts_bytes [] = 0
dicts_bytes (d ∷ []) = fields_bytes d + 2
dicts_bytes (d ∷ e ∷ ds) = fields_bytes d + 3 + dicts_bytes (e ∷ ds)

unfoldable pub validate_feedback : List Fields → Outcome (List Fields)
unfolding dicts_bytes
validate_feedback feedback =
    if not (all are_fields_dumpable feedback)
    then err (bad_value "invalid test world feedback")
    else if ltb max_feedback_bytes (dicts_bytes feedback + 2)
    then err (bad_value "test world feedback too large")
    else ok feedback

unfoldable pub validate_duration : ℕ → String → Outcome ℕ
validate_duration value problem =
    if leb value max_duration_ms then ok value else err (bad_value problem)

-- The loop of `_has_complete_pass_proof` over `zip(world.checks, feedback)`, lengths being equal.
unfoldable pub proofs_match : List TestCheck → List Fields → Bool
proofs_match [] [] = true
proofs_match [] (item ∷ feedback) = false
proofs_match (check ∷ checks) [] = false
proofs_match (check ∷ checks) (item ∷ feedback) =
    is_text check.name (get_field "check" item)
    && is_true (get_field "passed" item)
    && proofs_match checks feedback

unfoldable pub has_complete_pass_proof : World → List Fields → Bool
has_complete_pass_proof world feedback =
    nat_eq (length feedback) (length world.checks) && proofs_match world.checks feedback
