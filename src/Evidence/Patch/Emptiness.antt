-- ===== src/Evidence/Patch/Emptiness.antt =====
-- When a patch is empty.
use text.Mathlib.TextLemmas.{append-eq-nil_iff}
use lil_tweak.Prelude.{
  beq_refl, option_Eq, pair_Eq, nat_Eq, ℕ, ◌-◌, ◌≡◌, ◌≢◌, ◌↔◌, refl, ◌⊎◌, inl, inr, true, false,
  String, List, [], ◌∷◌, ltb, Bool-cases, eq_iff, Option, some, none, ◌==◌, string_Eq, not, ◌||◌,
  guard, ok, >>=-eq-ok, arith,
}
use lil_tweak.Prelude.Text.{◌<>◌, utf8_len}
use lil_tweak.Prelude.Table.{get, put, All, every-All, get-put, get-put_self}
use lil_tweak.Evidence.Snapshots.{
  held, file_bytes, snapshot_identity, FileValue, WorkspaceSnapshot, is_unchanged, all_names,
  snapshot_bytes,
}
use lil_tweak.Evidence.Patch.{
  split_lines, ends_line, PatchTools, append_bounded, append_line, append_lines, file_diff,
  file_label, text_of, patch_lines, holds_nul, patch_names, build_workspace_patch, has_nul,
  without_nul, no_newline,
}

-- Each line of a diff begins with a mark, which is not a NUL.
abbrev pub HasMarks : PatchTools → Type 0
HasMarks tools =
    (a b : List String) (old new : String)
    → All (λ line. without_nul line ≢ "") (tools.unified_diff a b old new)

-- The identity of the path is the same, or its two texts have no difference.
abbrev pub IsQuiet : PatchTools → WorkspaceSnapshot → WorkspaceSnapshot → String → Type 0
IsQuiet tools baseline final name =
    (is_unchanged tools.sha256 baseline final name ≡ true)
    ⊎ (file_diff tools name (get name baseline.files) (get name final.files) ≡ ok [])

append_bounded-empty :
    (max : ℕ) (encoded text : String)
    → append_bounded max encoded text ≡ ok ""
    → (encoded ≡ "") × (text ≡ "")
unfolding append_bounded
append_bounded-empty max encoded text h =
    elim (Bool-cases (ltb (max - utf8_len encoded) (utf8_len text))) [
      | inl long ↦ ground (arith, h, long)
      | inr fits ↦ append-eq-nil_iff.0 (ground (arith, h, fits))
    ]

without_nul-empty : without_nul "" ≡ ""
unfolding without_nul
without_nul-empty = refl

no_newline-ne : no_newline ≢ ""
no_newline-ne e = cc e

append_line-empty :
    (max : ℕ) (encoded line : String)
    → append_line max encoded line ≡ ok ""
    → (encoded ≡ "") × (without_nul line ≡ "")
unfolding append_line
append_line-empty max encoded line h = elim (Bool-cases (has_nul line)) [
  | inr plain ↦
      let (before, here) = append_bounded-empty max encoded line (rw (plain, append_line) at h) in
      (before, rw here without_nul-empty)
  | inl marked ↦
      let (middle, first, second) =
        >>=-eq-ok (append_bounded max encoded (without_nul line)) _
          (rw (marked, append_line) at h) in
      absurd (no_newline-ne (append_bounded-empty max middle no_newline second).1)
]

append_lines-empty :
    (max : ℕ) (encoded : String) (lines : List String)
    → All (λ line. without_nul line ≢ "") lines
    → append_lines max encoded lines ≡ ok ""
    → (encoded ≡ "") × (lines ≡ [])
unfolding append_lines
append_lines-empty max encoded [] marks h = (ground (arith, h), refl)
append_lines-empty max encoded (line ∷ lines) marks h =
    let (longer, first, rest) = >>=-eq-ok (append_line max encoded line) _ h in
    let (none_yet, _) = append_lines-empty max longer lines marks.1 rest in
    absurd (marks.0 (append_line-empty max encoded line (rw none_yet at first)).1)

no-lines : (max : ℕ) → append_lines max "" [] ≡ ok ""
unfolding append_lines
no-lines max = refl

diff-marks :
    (tools : PatchTools) (name : String) (old new : Option FileValue) (lines : List String)
    → HasMarks tools
    → file_diff tools name old new ≡ ok lines
    → All (λ line. without_nul line ≢ "") lines
unfolding file_diff
diff-marks tools name old new lines marks h =
    let (before, _, h1) = >>=-eq-ok (snapshot_bytes tools.sha256 old) _ h in
    let (after, _, h2) = >>=-eq-ok (snapshot_bytes tools.sha256 new) _ h1 in
    let (_, _, h3) =
      >>=-eq-ok (guard (not (holds_nul before || holds_nul after)) "binary_change_unsupported") _
        h2 in
    let (old_text, _, h4) = >>=-eq-ok (text_of tools before) _ h3 in
    let (new_text, _, h5) = >>=-eq-ok (text_of tools after) _ h4 in
    let made : tools.unified_diff (patch_lines old_text) (patch_lines new_text)
          (file_label "a/" name before) (file_label "b/" name after)
        ≡ lines =
      ground (arith, h5) in
    rw (← made) (
      marks (patch_lines old_text) (patch_lines new_text) (file_label "a/" name before)
        (file_label "b/" name after))

module _ (tools : PatchTools) (max : ℕ) (baseline final : WorkspaceSnapshot) where
  names-empty :
      (names : List String) (encoded : String)
      → HasMarks tools
      → patch_names tools max baseline final names encoded ≡ ok ""
      → (encoded ≡ "") × All (IsQuiet tools baseline final) names
  unfolding patch_names
  names-empty [] encoded marks h = (ground (arith, h), tt)
  names-empty (name ∷ names) encoded marks h =
      elim (Bool-cases (is_unchanged tools.sha256 baseline final name)) [
        | inl same ↦
            let (start, rest) = names-empty names encoded marks (rw (same, patch_names) at h) in
            (start, (inl same, rest))
        | inr changed ↦
            let (lines, diff, later) =
              >>=-eq-ok (file_diff tools name (get name baseline.files) (get name final.files)) _
                (rw (changed, patch_names) at h) in
            let (longer, added, rest) = >>=-eq-ok (append_lines max encoded lines) _ later in
            let (none_yet, quiet) = names-empty names longer marks rest in
            let (start, no_lines) =
              append_lines-empty max encoded lines
                (diff-marks tools name (get name baseline.files) (get name final.files) lines marks
                  diff)
                (rw none_yet at added) in
            (start, (inr (rw no_lines at diff), quiet))
      ]

  quiet-names :
      (names : List String)
      → All (IsQuiet tools baseline final) names
      → patch_names tools max baseline final names "" ≡ ok ""
  unfolding patch_names
  quiet-names [] quiet = refl
  quiet-names (name ∷ names) (inl same, quiet) = rw (same, patch_names) (quiet-names names quiet)
  quiet-names (name ∷ names) (inr no_lines, quiet) =
      elim (Bool-cases (is_unchanged tools.sha256 baseline final name)) [
        | inl same ↦ rw (same, patch_names) (quiet-names names quiet)
        | inr changed ↦ ground (arith, changed, no_lines, no-lines max, quiet-names names quiet)
      ]

  -- A patch is empty exactly when of every path of the two snapshots the identity is the same or the diff of the two texts has no lines, given that each line of a diff has its mark.
  pub empty_patch_iff :
      HasMarks tools
      → (build_workspace_patch tools max baseline final ≡ ok "")
        ↔ All (IsQuiet tools baseline final) (all_names tools.sha256 baseline final)
  unfolding build_workspace_patch
  empty_patch_iff marks = (
    λ h. (names-empty (all_names tools.sha256 baseline final) "" marks h).1,
    quiet-names (all_names tools.sha256 baseline final),
  )

same-is_unchanged :
    (sha256 : List ℕ → String) (before after : WorkspaceSnapshot) (name : String)
    → get name after.files ≡ get name before.files
    → is_unchanged sha256 before after name ≡ true
unfolding is_unchanged
same-is_unchanged sha256 before after name e = rw e (
    beq_refl ⦃e = option_Eq ⦃e = pair_Eq ⦃e = nat_Eq⦄ ⦃f = string_Eq⦄⦄⦄
      (snapshot_identity sha256 (get name before.files)))

module _ (tools : PatchTools) (max : ℕ) (baseline : WorkspaceSnapshot) (name digest : String) where
  abbrev pub with_empty_file : WorkspaceSnapshot
  with_empty_file = record { files = put name (held []) baseline.files; source_digest = digest }

  others-IsQuiet :
      (n : String)
      → get name baseline.files ≡ none
      → tools.decode [] ≡ some ""
      → ((old new : String) → tools.unified_diff [] [] old new ≡ [])
      → IsQuiet tools baseline with_empty_file n
  unfolding is_unchanged file_diff snapshot_bytes file_bytes snapshot_identity ends_line text_of
      patch_lines split_lines
  others-IsQuiet n absent decoded no_diff = elim (Bool-cases (name == n)) [
    | inl here ↦ inr (
        rw (← (eq_iff name n).0 here) (
          ground (
            arith,
            absent,
            decoded,
            no_diff "/dev/null" ("b/" <> name),
            get-put_self name (held []) baseline.files,
          )))
    | inr other ↦ inl (
        same-is_unchanged tools.sha256 baseline with_empty_file n
          (ground (arith, other, get-put name n (held []) baseline.files)))
  ]

  -- A path that is added with no bytes has changed, and leaves no trace in the patch: with no other change the patch is empty, given that no bytes decode to an empty text and that equal lists of lines have no diff.
  pub added_empty_file_is_lost :
      get name baseline.files ≡ none
      → tools.decode [] ≡ some ""
      → ((old new : String) → tools.unified_diff [] [] old new ≡ [])
      → (is_unchanged tools.sha256 baseline with_empty_file name ≡ false)
        × (build_workspace_patch tools max baseline with_empty_file ≡ ok "")
  unfolding build_workspace_patch is_unchanged snapshot_identity
  added_empty_file_is_lost absent decoded no_diff = (
    ground (arith, absent, get-put_self name (held []) baseline.files),
    quiet-names tools max baseline with_empty_file (all_names tools.sha256 baseline with_empty_file)
        (every-All (IsQuiet tools baseline with_empty_file)
          (λ n. others-IsQuiet n absent decoded no_diff)
          (all_names tools.sha256 baseline with_empty_file)),
  )
