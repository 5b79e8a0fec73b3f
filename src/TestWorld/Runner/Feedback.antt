-- ===== src/TestWorld/Runner/Feedback.antt =====
-- The prompt of an attempt and the feedback of a check in core/lil_tweak/test_world_runner.py.
use lil_tweak.Prelude.{
  ℕ, ◌-◌, ◌*◌, Bool, true, String, Option, some, none, List, [], ◌∷◌, leb, if◌then◌else◌, Result,
  ok, err, ◌>>=◌,
}
use lil_tweak.Prelude.Text.{◌<>◌, utf8_len}
use lil_tweak.Json.{
  Json, null, bool, nat, neg, text, arr, obj, Items, nil, cons, Fields, end, field, get_field,
}
use lil_tweak.Json.Print.{dumps}
use lil_tweak.TestWorld.Model.{TestCheck, World, Attempt}

abbrev max_prior_feedback_bytes : ℕ
max_prior_feedback_bytes = 32 * 1024

-- `text.encode("utf-8")[:n].decode("utf-8", "ignore")`: a character that is cut is dropped.
unfoldable pub utf8_prefix : ℕ → String → String
utf8_prefix n String.[] = ""
utf8_prefix n (String.◌∷◌ c s) =
    let size = utf8_len (String.◌∷◌ c "") in
    let rest = utf8_prefix (n - size) s in if leb size n then String.◌∷◌ c rest else ""

unfoldable pub bounded_feedback_json : Json → String
unfolding utf8_prefix dumps
bounded_feedback_json value =
    let encoded = dumps true value in
    if leb (utf8_len encoded) max_prior_feedback_bytes
    then encoded
    else dumps true (
        obj (
          field "truncated" (bool true)
            (field "preview" (text (utf8_prefix (max_prior_feedback_bytes - 128) encoded)) end)))

abbrev items_of : List Fields → Items
items_of [] = nil
items_of (d ∷ ds) = cons (obj d) (items_of ds)

unfoldable pub attempt_prompt : World → Option Attempt → String
unfolding bounded_feedback_json
attempt_prompt world previous =
    "You are working inside a bounded Tueiq Test World.\n\nObjective: "
    <> world.objective
    <> "\n\nThe trusted core, not your self-report, decides success by running deterministic judge checks after you finish."
    <> "\n\nDo not attempt external actions. Network access is disabled. Make only changes required by the objective."
    <> elim previous [
      | none ↦ ""
      | some before ↦
          "\n\nPrevious attempt feedback:\n\n"
          <> bounded_feedback_json (arr (items_of before.feedback))
          <> "\n\nContinue from the previous accepted cumulative patch and repair the remaining failures."
    ]

abbrev pub text_or_blank : Option Json → Option String
text_or_blank none = some ""
text_or_blank (some (text t)) = some t
text_or_blank (some _) = none

-- An exit code is an integer or nothing, and not a truth value.
abbrev pub exit_code_of : Option Json → Option Json
exit_code_of none = some null
exit_code_of (some null) = some null
exit_code_of (some (nat n)) = some (nat n)
exit_code_of (some (neg n)) = some (neg n)
exit_code_of (some _) = none

abbrev pub truth_of : Option Json → Option Bool
truth_of (some (bool b)) = some b
truth_of _ = none

verdict : TestCheck → Bool → Json → Bool → Bool → String → String → Fields
verdict check passed exit_code timed_out truncated stdout stderr = field "check" (text check.name) (
    field "passed" (bool passed) (
      field "exitCode" exit_code (
        field "timedOut" (bool timed_out) (
          field "truncated" (bool truncated)
            (field "stdout" (text stdout) (field "stderr" (text stderr) end))))))

-- A value of the wrong type is refused.
abbrev pub required : {A : Type 0} → Option A → Result String A
required none = err "invalid judge result"
required (some a) = ok a

-- The feedback, and `passed`.
unfoldable pub judge_feedback : TestCheck → Fields → Result String (Fields × Bool)
unfolding verdict get_field
judge_feedback check result = do
  passed ← required (truth_of (get_field "passed" result))
  exit_code ← required (exit_code_of (get_field "exitCode" result))
  timed_out ← required (truth_of (get_field "timedOut" result))
  truncated ← required (truth_of (get_field "truncated" result))
  stdout ← required (text_or_blank (get_field "stdout" result))
  stderr ← required (text_or_blank (get_field "stderr" result))
  ok (verdict check passed exit_code timed_out truncated stdout stderr, passed)
