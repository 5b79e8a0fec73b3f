-- ===== src/Archives/Names.antt =====
-- `_safe_name` of core/lil_tweak/archive.py. A text of the model has a form in UTF-8.
use Prim.Native.Char.{code}
use lil_tweak.Prelude.{
  ℕ, Bool, false, not, ◌&&◌, ◌||◌, String, List, [], ◌∷◌, any, length, nat_eq, ltb, leb,
  if◌then◌else◌, ◌==◌, string_Eq, Result, ok, ◌>>=◌, ◌>>◌, guard,
}
use lil_tweak.Prelude.Text.{codes, is_blank, is_lower, is_upper, utf8_len}
use lil_tweak.Prelude.Paths.{posix_parts, join_slash, starts_with}

-- A `float` of Python is a fraction; its denominator is not 0.
pub record Ratio : Type 0 where
  pub numerator : ℕ
  pub denominator : ℕ

pub record ArchiveLimits : Type 0 where
  pub max_entries : ℕ
  pub max_depth : ℕ
  pub max_file_bytes : ℕ
  pub max_total_bytes : ℕ
  pub max_compression_ratio : Ratio

abbrev blocked_components : List String
blocked_components =
    ".git" ∷ ".hg" ∷ ".svn" ∷ ".ssh" ∷ ".aws" ∷ ".gnupg" ∷ ".npmrc" ∷ ".pypirc" ∷ "credentials"
    ∷ "id_rsa" ∷ "id_ed25519" ∷ []

-- `ord(char) < 32 or ord(char) == 127`
abbrev pub is_control : ℕ → Bool
is_control c = ltb c 32 || nat_eq c 127

-- `raw.replace("\\", "/")`
unfoldable pub slashed : String → String
slashed String.[] = ""
slashed (String.◌∷◌ c s) =
    let rest = slashed s in if nat_eq (code c) b'\\' then String.◌∷◌ "/" rest else String.◌∷◌ c rest

-- `_WINDOWS_DRIVE.match(normalized)`
abbrev pub has_drive : String → Bool
has_drive String.[] = false
has_drive (String.◌∷◌ c s) = (is_lower (code c) || is_upper (code c)) && starts_with ":" s

-- `normalized.endswith("/")`
unfoldable pub ends_with_slash : String → Bool
ends_with_slash String.[] = false
ends_with_slash (String.◌∷◌ c s) =
    let rest = ends_with_slash s in if is_blank s then nat_eq (code c) b'/' else rest

-- `normalized.rstrip("/")`
unfoldable pub rstrip_slash : String → String
rstrip_slash String.[] = ""
rstrip_slash (String.◌∷◌ c s) =
    let rest = rstrip_slash s in
    if is_blank rest && nat_eq (code c) b'/' then "" else String.◌∷◌ c rest

-- `path.as_posix()`
abbrev pub as_posix : List String → String
as_posix [] = "."
as_posix (part ∷ parts) = join_slash (part ∷ parts)

abbrev pub is_dots : String → Bool
is_dots part = is_blank part || part == "." || part == ".."

module _ (casefold : String → String) where
  unfoldable pub blocked_source_component : String → Bool
  blocked_source_component part =
      let folded = casefold part in
      any (λ b. folded == b) blocked_components
      || folded == ".env"
      || (starts_with ".env." folded && not (folded == ".env.example" || folded == ".env.sample"))

  abbrev pub is_bad_part : String → Bool
  is_bad_part part = ltb 255 (utf8_len part) || blocked_source_component part

  unfoldable pub safe_name : String → ArchiveLimits → Result String (String × Bool)
  unfolding slashed ends_with_slash rstrip_slash blocked_source_component
  safe_name raw limits = do
    guard (not (is_blank raw || any is_control (codes raw))) "unsafe_path"
    let normalized = slashed raw
    guard (not (starts_with "/" normalized || starts_with "\\\\" raw || has_drive normalized))
        "unsafe_path"
    let parts = posix_parts (rstrip_slash normalized)
    guard (not (is_blank (rstrip_slash normalized) || any is_dots parts)) "unsafe_path"
    guard (not (any is_bad_part parts)) "unsafe_path"
    guard (leb (length parts) limits.max_depth) "path_too_deep"
    ok (as_posix parts, ends_with_slash normalized)

  unfoldable pub validate_portable_path : String → ArchiveLimits → Result String String
  unfolding safe_name
  validate_portable_path raw limits =
      safe_name raw limits >>= λ named. let (path, _) = named in ok path
