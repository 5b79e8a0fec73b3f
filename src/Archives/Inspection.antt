-- ===== src/Archives/Inspection.antt =====
-- `_validate_info` and `inspect_zip` of core/lil_tweak/archive.py. What `zipfile` reads of an archive is
-- an argument: the list of its members, or nothing if it raises.
use lil_tweak.Prelude.{
  ℕ, ◌+◌, ◌*◌, ◌/◌, ◌%◌, Bool, true, false, not, ◌&&◌, ◌||◌, String, Option, some, none, List, [],
  ◌∷◌, ◌++◌, any, length, nat_eq, ltb, leb, if◌then◌else◌, ◌==◌, string_Eq, Result, ok, err, ◌>>=◌,
  ◌>>◌, guard,
}
use lil_tweak.Prelude.Text.{◌<>◌}
use lil_tweak.Prelude.Table.{Table, get, put}
use lil_tweak.Prelude.Paths.{starts_with, parents_of}
use lil_tweak.Archives.Names.{ArchiveLimits, safe_name, ends_with_slash}

pub record ArchiveEntry : Type 0 where
  pub path : String
  pub size : ℕ
  pub is_directory : Bool

-- The fields of `zipfile.ZipInfo` that are read.
pub record ZipInfo : Type 0 where
  pub filename : String
  pub flag_bits : ℕ
  pub external_attr : ℕ
  pub file_size : ℕ
  pub compress_size : ℕ

-- `stat.S_IFMT((info.external_attr >> 16) & 0xFFFF)`, shifted to the right by 12 bits.
unfoldable pub file_kind : ZipInfo → ℕ
file_kind info = info.external_attr / 65536 % 65536 / 4096

-- The file size is over the ratio of the compressed size, as exact fractions; Python rounds the quotient
-- to a float first.
abbrev pub is_bomb : ArchiveLimits → ZipInfo → Bool
is_bomb limits info =
    not (nat_eq info.file_size 0)
    && (nat_eq info.compress_size 0
        || ltb (limits.max_compression_ratio.numerator * info.compress_size)
            (info.file_size * limits.max_compression_ratio.denominator))

-- `entries`, `seen`, `entry_types` and `total`.
pub record Inspection : Type 0 where
  pub entries : List ArchiveEntry
  pub seen : List String
  pub entry_types : Table String Bool
  pub total : ℕ

-- `existing_parent is False`
abbrev pub is_file : Option Bool → Bool
is_file (some false) = true
is_file _ = false

module _ (casefold : String → String) where
  -- `_validate_info`, after the name.
  unfoldable pub checked_entry :
      String × Bool → ZipInfo → ArchiveLimits → Result String (ArchiveEntry × String)
  unfolding file_kind ends_with_slash
  checked_entry (path, name_is_directory) info limits = do
    guard (not (nat_eq (info.flag_bits % 2) 1)) "encrypted_entry"
    let is_directory =
        ends_with_slash info.filename || name_is_directory || nat_eq (file_kind info) 4
    guard (nat_eq (file_kind info) 0 || nat_eq (file_kind info) 8 || nat_eq (file_kind info) 4)
        "unsupported_type"
    guard (not (is_directory && not (nat_eq info.file_size 0))) "unsupported_type"
    guard (leb info.file_size limits.max_file_bytes) "file_too_large"
    guard (not (is_bomb limits info)) "compression_ratio"
    ok (record { path = path; size = info.file_size; is_directory = is_directory }, casefold path)

  unfoldable pub validate_info : ZipInfo → ArchiveLimits → Result String (ArchiveEntry × String)
  unfolding safe_name checked_entry
  validate_info info limits =
      safe_name casefold info.filename limits >>= λ named. checked_entry named info limits

  -- The loop's checks against the entries before, and what it notes down.
  unfoldable pub admit_entry :
      ArchiveLimits → Inspection → ArchiveEntry × String → Result String Inspection
  unfolding parents_of starts_with get put
  admit_entry limits st (entry, folded) = do
    guard (not (any (λ k. k == folded) st.seen)) "duplicate_path"
    guard
        (not
          (any (λ parent. is_file (get (casefold parent) st.entry_types)) (parents_of entry.path)))
        "path_conflict"
    guard (entry.is_directory || not (any (λ e. starts_with (folded <> "/") e.0) st.entry_types))
        "path_conflict"
    guard (leb (st.total + entry.size) limits.max_total_bytes) "archive_too_large"
    ok (record {
      entries = st.entries ++ entry ∷ [];
      seen = st.seen ++ folded ∷ [];
      entry_types = put folded entry.is_directory st.entry_types;
      total = st.total + entry.size;
    })

  -- One round of the loop.
  unfoldable pub inspect_entry : ArchiveLimits → ZipInfo → Inspection → Result String Inspection
  unfolding validate_info admit_entry
  inspect_entry limits info st =
      validate_info info limits >>= λ checked. admit_entry limits st checked

  unfoldable pub inspect_entries :
      ArchiveLimits → List ZipInfo → Inspection → Result String Inspection
  unfolding inspect_entry
  inspect_entries limits [] st = ok st
  inspect_entries limits (info ∷ infos) st =
      inspect_entry limits info st >>= λ next. inspect_entries limits infos next

  abbrev pub no_entries : Inspection
  no_entries = record { entries = []; seen = []; entry_types = []; total = 0 }

  unfoldable pub inspect_zip :
      Option (List ZipInfo) → ArchiveLimits → Result String (List ArchiveEntry)
  unfolding inspect_entries
  inspect_zip opened limits =
      if nat_eq limits.max_compression_ratio.numerator 0
      then err "archive limits must be positive"
      else elim opened [
        | none ↦ err "invalid_zip"
        | some infos ↦ do
          guard (leb (length infos) limits.max_entries) "too_many_entries"
          st ← inspect_entries limits infos no_entries
          ok st.entries
      ]
