-- ===== src/Examples/Patches.antt =====
-- A patch with one changed file, and one that loses an added empty file.
use Prim.Native.Char.{Char}
use lil_tweak.Prelude.{
  ℕ, ◌≡◌, ◌≢◌, ◌≤◌, ◌↔◌, refl, false, String, Option, some, List, [], ◌∷◌, ◌++◌, map, ok, string_Eq,
}
use lil_tweak.Prelude.Text.{utf8_len}
use lil_tweak.Prelude.Table.{get, All}
use lil_tweak.Recovery.Contracts.{sort_unique}
use lil_tweak.Evidence.Snapshots.{
  held, WorkspaceSnapshot, is_unchanged, all_names, snapshot_identity, snapshot_bytes, file_bytes,
}
use lil_tweak.Evidence.Patch.{
  PatchTools, without_nul, build_workspace_patch, patch_names, file_diff, append_lines, append_line,
  append_bounded, patch_lines, split_lines, ends_line, text_of,
}
use lil_tweak.Evidence.Patch.Bounds.{patch_is_bounded}
use lil_tweak.Evidence.Patch.Emptiness.{
  HasMarks, IsQuiet, empty_patch_iff, with_empty_file, added_empty_file_is_lost,
}

-- Every old line is taken out, and every new line is put in.
abbrev full_diff : List String → List String → String → String → List String
full_diff a b old new = map (λ line. String.◌∷◌ "-" line) a ++ map (λ line. String.◌∷◌ "+" line) b

abbrev text_of_bytes : List ℕ → Option String
text_of_bytes [] = some ""
text_of_bytes (_ ∷ _) = some "x\n"

abbrev pub tools : PatchTools
tools = record { sha256 = λ _. "d"; decode = text_of_bytes; unified_diff = full_diff }

not_empty : (c : Char) (s : String) → String.◌∷◌ c s ≢ ""
not_empty c s e = cc e

marked-All :
    (b : List String) → All (λ line. without_nul line ≢ "") (map (λ line. String.◌∷◌ "+" line) b)
unfolding without_nul
marked-All [] = tt
marked-All (line ∷ b) = (not_empty _ _, marked-All b)

diff-All :
    (a b : List String) (old new : String)
    → All (λ line. without_nul line ≢ "") (full_diff a b old new)
unfolding without_nul
diff-All [] b old new = marked-All b
diff-All (line ∷ a) b old new = (not_empty _ _, diff-All a b old new)

pub tools-HasMarks : HasMarks tools
tools-HasMarks a b old new = diff-All a b old new

abbrev empty_tree : WorkspaceSnapshot
empty_tree = record { files = []; source_digest = "s" }

abbrev one_file : WorkspaceSnapshot
one_file = record { files = ("f", held (120 ∷ 10 ∷ [])) ∷ []; source_digest = "s" }

patch_is_bounded_example : utf8_len "+x\n" ≤ 100
unfolding build_workspace_patch patch_names sort_unique is_unchanged snapshot_identity
    snapshot_bytes file_bytes file_diff append_lines append_line append_bounded patch_lines
    split_lines ends_line text_of get without_nul
patch_is_bounded_example = patch_is_bounded tools 100 empty_tree one_file "+x\n" refl

empty_patch_iff_example :
    (build_workspace_patch tools 100 one_file one_file ≡ ok "")
    ↔ All (IsQuiet tools one_file one_file) (all_names tools.sha256 one_file one_file)
empty_patch_iff_example = empty_patch_iff tools 100 one_file one_file tools-HasMarks

added_empty_file_is_lost_example :
    (is_unchanged tools.sha256 empty_tree (with_empty_file tools 100 empty_tree "f" "t") "f"
      ≡ false)
    × (build_workspace_patch tools 100 empty_tree (with_empty_file tools 100 empty_tree "f" "t")
        ≡ ok "")
unfolding get
added_empty_file_is_lost_example =
    added_empty_file_is_lost tools 100 empty_tree "f" "t" refl refl (λ old new. refl)
