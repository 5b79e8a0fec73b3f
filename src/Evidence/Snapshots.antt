-- ===== src/Evidence/Snapshots.antt =====
-- The snapshots of a workspace in core/lil_tweak/evidence.py, and which paths changed.
use lil_tweak.Prelude.{
  ℕ, Bool, not, ◌&&◌, String, Option, some, none, List, ◌++◌, map, length, select, nat_eq,
  if◌then◌else◌, ◌==◌, string_Eq, nat_Eq, pair_Eq, option_Eq, Result, ok, err,
}
use lil_tweak.Prelude.Table.{Table, get}
use lil_tweak.Recovery.Contracts.{sort_unique}

-- Bytes in memory, or a `SnapshotFile` with what reading its path gives: nothing on an `OSError`.
pub data FileValue : Type 0 where
  held : List ℕ → FileValue
  staged : ℕ → String → Option (List ℕ) → FileValue

pub record WorkspaceSnapshot : Type 0 where
  pub files : Table String FileValue
  pub source_digest : String

-- The codes of `WorkspaceEvidenceError`.
abbrev pub Evidenced : Type 0 → Type 0
Evidenced A = Result String A

-- `set(files)`, without its order.
abbrev pub names : {V : Type 0} → Table String V → List String
names t = map (λ p. p.0) t

module _ (sha256 : List ℕ → String) where
  abbrev pub identity_of : FileValue → ℕ × String
  identity_of (held bytes) = (length bytes, sha256 bytes)
  identity_of (staged size digest _) = (size, digest)

  -- `_snapshot_identity`
  unfoldable pub snapshot_identity : Option FileValue → Option (ℕ × String)
  snapshot_identity none = none
  snapshot_identity (some v) = some (identity_of v)

  -- `_snapshot_bytes`, for a file that is there.
  unfoldable pub file_bytes : FileValue → Evidenced (List ℕ)
  file_bytes (held bytes) = ok bytes
  file_bytes (staged size digest none) = err "snapshot_unavailable"
  file_bytes (staged size digest (some bytes)) =
      if nat_eq (length bytes) size && sha256 bytes == digest
      then ok bytes
      else err "snapshot_changed"

  unfoldable pub snapshot_bytes : Option FileValue → Evidenced (Option (List ℕ))
  snapshot_bytes none = ok none
  snapshot_bytes (some v) = elim (file_bytes v) [ err e ↦ err e | ok bytes ↦ ok (some bytes) ]

  -- The path has the same identity before and after, or is missing from both.
  unfoldable pub is_unchanged : WorkspaceSnapshot → WorkspaceSnapshot → String → Bool
  unfolding snapshot_identity get
  is_unchanged before after name =
      ◌==◌ {K = Option (ℕ × String)} ⦃e = option_Eq ⦃e = pair_Eq ⦃e = nat_Eq⦄ ⦃f = string_Eq⦄⦄⦄
        (snapshot_identity (get name before.files)) (snapshot_identity (get name after.files))

  -- `sorted(set(before.files) | set(after.files))`
  abbrev pub all_names : WorkspaceSnapshot → WorkspaceSnapshot → List String
  all_names before after = sort_unique (names before.files ++ names after.files)

  unfoldable pub workspace_changed_paths : WorkspaceSnapshot → WorkspaceSnapshot → List String
  unfolding is_unchanged
  workspace_changed_paths before after =
      select (λ name. not (is_unchanged before after name)) (all_names before after)
