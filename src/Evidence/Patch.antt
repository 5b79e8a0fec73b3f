-- ===== src/Evidence/Patch.antt =====
-- `build_workspace_patch` of core/lil_tweak/evidence.py.
pub mod Bounds
pub mod Emptiness
use Prim.Native.Char.{code}
use lil_tweak.Prelude.{
  ℕ, ◌+◌, ◌-◌, ◌≤◌, Bool, true, false, not, ◌&&◌, ◌||◌, String, Option, some, none, List, [], ◌∷◌,
  any, between, leb, ltb, nat_eq, if◌then◌else◌, ◌==◌, string_Eq, Result, ok, err, ◌>>=◌, ◌>>◌,
  guard,
}
use lil_tweak.Prelude.Text.{◌<>◌, utf8_len, is_blank}
use lil_tweak.Prelude.Table.{Table, get}
use lil_tweak.Prelude.Paths.{joined_to}
use lil_tweak.Evidence.Snapshots.{
  FileValue, WorkspaceSnapshot, Evidenced, is_unchanged, all_names, snapshot_bytes,
}

-- SHA-256, strict decoding of UTF-8, and `difflib.unified_diff` of two lists of lines under the names
-- of the old and of the new file.
pub record PatchTools : Type 0 where
  pub sha256 : List ℕ → String
  pub decode : List ℕ → Option String
  pub unified_diff : List String → List String → String → String → List String

-- The line boundaries of `str.splitlines`, the pair of carriage return and line feed apart.
abbrev pub is_break : ℕ → Bool
is_break c = between 10 13 c || between 28 30 c || nat_eq c 133 || between 8232 8233 c

abbrev starts_with_feed : String → Bool
starts_with_feed String.[] = false
starts_with_feed (String.◌∷◌ c s) = nat_eq (code c) 10

-- `text.splitlines(keepends=True)`
unfoldable pub split_lines : String → List String
split_lines String.[] = []
split_lines (String.◌∷◌ c s) =
    let lines = split_lines s in
    let here : String = String.◌∷◌ c "" in
    if is_break (code c) && not (nat_eq (code c) 13 && starts_with_feed s)
    then here ∷ lines
    else joined_to here lines

-- `text.endswith(("\n", "\r"))`
unfoldable pub ends_line : String → Bool
ends_line String.[] = false
ends_line (String.◌∷◌ c s) =
    let rest = ends_line s in if is_blank s then nat_eq (code c) 10 || nat_eq (code c) 13 else rest

-- A text without a last line end is marked by a NUL.
unfoldable pub patch_lines : String → List String
unfolding split_lines ends_line
patch_lines text =
    split_lines (if not (is_blank text) && not (ends_line text) then text <> "\0\n" else text)

-- `"\0" in line`, and `line.replace("\0", "")`
abbrev pub has_nul : String → Bool
has_nul String.[] = false
has_nul (String.◌∷◌ c s) = nat_eq (code c) 0 || has_nul s

unfoldable pub without_nul : String → String
without_nul String.[] = ""
without_nul (String.◌∷◌ c s) =
    let rest = without_nul s in if nat_eq (code c) 0 then rest else String.◌∷◌ c rest

abbrev no_newline : String
no_newline = "\\ No newline at end of file\n"

abbrev pub holds_nul : Option (List ℕ) → Bool
holds_nul none = false
holds_nul (some bytes) = any (nat_eq 0) bytes

abbrev pub file_label : String → String → Option (List ℕ) → String
file_label side name none = "/dev/null"
file_label side name (some _) = side <> name

module _ (tools : PatchTools) where
  -- A missing file counts as an empty text.
  unfoldable pub text_of : Option (List ℕ) → Evidenced String
  text_of none = ok ""
  text_of (some bytes) = elim (tools.decode bytes) [
    | none ↦ err "binary_change_unsupported"
    | some text ↦ ok text
  ]

  -- The lines of the diff of one path whose identity changed.
  unfoldable pub file_diff : String → Option FileValue → Option FileValue → Evidenced (List String)
  unfolding snapshot_bytes text_of patch_lines
  file_diff name old new = do
    before ← snapshot_bytes tools.sha256 old
    after ← snapshot_bytes tools.sha256 new
    guard (not (holds_nul before || holds_nul after)) "binary_change_unsupported"
    before_text ← text_of before
    after_text ← text_of after
    ok (
        tools.unified_diff (patch_lines before_text) (patch_lines after_text)
          (file_label "a/" name before) (file_label "b/" name after))

-- `append_bounded`
unfoldable pub append_bounded : ℕ → String → String → Evidenced String
append_bounded max_bytes encoded text =
    if ltb (max_bytes - utf8_len encoded) (utf8_len text)
    then err "patch_too_large"
    else ok (encoded <> text)

unfoldable pub append_line : ℕ → String → String → Evidenced String
unfolding append_bounded without_nul
append_line max_bytes encoded line = elim (has_nul line) [
  | true ↦ append_bounded max_bytes encoded (without_nul line) >>= λ marked.
      append_bounded max_bytes marked no_newline
  | false ↦ append_bounded max_bytes encoded line
]

unfoldable pub append_lines : ℕ → String → List String → Evidenced String
append_lines max_bytes encoded [] = ok encoded
append_lines max_bytes encoded (line ∷ lines) =
    append_line max_bytes encoded line >>= λ longer. append_lines max_bytes longer lines

module _ (tools : PatchTools) (max_bytes : ℕ) (baseline final : WorkspaceSnapshot) where
  unfoldable pub patch_names : List String → String → Evidenced String
  unfolding is_unchanged file_diff append_lines
  patch_names [] encoded = ok encoded
  patch_names (name ∷ rest) encoded = elim (is_unchanged tools.sha256 baseline final name) [
    | true ↦ patch_names rest encoded
    | false ↦ do
      lines ← file_diff tools name (get name baseline.files) (get name final.files)
      longer ← append_lines max_bytes encoded lines
      patch_names rest longer
  ]

  unfoldable pub build_workspace_patch : Evidenced String
  unfolding patch_names
  build_workspace_patch = patch_names (all_names tools.sha256 baseline final) ""
