-- ===== src/Evidence/Patch/Bounds.antt =====
-- The size of a patch.
use text.Mathlib.TextPositions.{len-append}
use lil_tweak.Prelude.{
  ℕ, ◌≤◌, ◌≡◌, inl, inr, String, List, [], ◌∷◌, Bool-cases, string_Eq, ok, >>=-eq-ok, arith,
}
use lil_tweak.Prelude.Text.{◌<>◌, utf8_len}
use lil_tweak.Prelude.Table.{get}
use lil_tweak.Evidence.Snapshots.{WorkspaceSnapshot, is_unchanged, all_names}
use lil_tweak.Evidence.Patch.{
  PatchTools, append_bounded, append_line, append_lines, file_diff, patch_names,
  build_workspace_patch, has_nul, without_nul, no_newline,
}

append_bounded-eq :
    (max : ℕ) (encoded text longer : String)
    → append_bounded max encoded text ≡ ok longer
    → longer ≡ encoded <> text
unfolding append_bounded
append_bounded-eq max encoded text longer h = ground (arith, h)

append_bounded-le :
    (max : ℕ) (encoded text longer : String)
    → utf8_len encoded ≤ max
    → append_bounded max encoded text ≡ ok longer
    → utf8_len longer ≤ max
unfolding append_bounded
append_bounded-le max encoded text longer fits h = ground (arith, h, fits, len-append encoded text)

append_line-le :
    (max : ℕ) (encoded line longer : String)
    → utf8_len encoded ≤ max
    → append_line max encoded line ≡ ok longer
    → utf8_len longer ≤ max
unfolding append_line
append_line-le max encoded line longer fits h = elim (Bool-cases (has_nul line)) [
  | inr plain ↦ append_bounded-le max encoded line longer fits (rw (plain, append_line) at h)
  | inl marked ↦
      let (middle, first, second) =
        >>=-eq-ok (append_bounded max encoded (without_nul line)) _
          (rw (marked, append_line) at h) in
      append_bounded-le max middle no_newline longer
        (append_bounded-le max encoded (without_nul line) middle fits first) second
]

append_lines-le :
    (max : ℕ) (encoded : String) (lines : List String) (longer : String)
    → utf8_len encoded ≤ max
    → append_lines max encoded lines ≡ ok longer
    → utf8_len longer ≤ max
unfolding append_lines
append_lines-le max encoded [] longer fits h = ground (arith, h, fits)
append_lines-le max encoded (line ∷ lines) longer fits h =
    let (middle, first, rest) = >>=-eq-ok (append_line max encoded line) _ h in
    append_lines-le max middle lines longer (append_line-le max encoded line middle fits first) rest

module _ (tools : PatchTools) (max : ℕ) (baseline final : WorkspaceSnapshot) where
  patch_names-le :
      (names : List String) (encoded patch : String)
      → utf8_len encoded ≤ max
      → patch_names tools max baseline final names encoded ≡ ok patch
      → utf8_len patch ≤ max
  unfolding patch_names
  patch_names-le [] encoded patch fits h = ground (arith, h, fits)
  patch_names-le (name ∷ names) encoded patch fits h =
      elim (Bool-cases (is_unchanged tools.sha256 baseline final name)) [
        | inl same ↦ patch_names-le names encoded patch fits (rw (same, patch_names) at h)
        | inr changed ↦
            let (lines, _, later) =
              >>=-eq-ok (file_diff tools name (get name baseline.files) (get name final.files)) _
                (rw (changed, patch_names) at h) in
            let (longer, added, rest) = >>=-eq-ok (append_lines max encoded lines) _ later in
            patch_names-le names longer patch (append_lines-le max encoded lines longer fits added)
              rest
      ]

  -- A patch that is built has at most `max_bytes` bytes, whatever the diffs of its files are.
  pub patch_is_bounded :
      (patch : String)
      → build_workspace_patch tools max baseline final ≡ ok patch
      → utf8_len patch ≤ max
  unfolding build_workspace_patch
  patch_is_bounded patch h =
      patch_names-le (all_names tools.sha256 baseline final) "" patch (omega arith) h
