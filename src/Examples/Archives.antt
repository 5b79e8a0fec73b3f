-- ===== src/Examples/Archives.antt =====
-- An archive with a directory and two files.
use lil_tweak.Prelude.{ℕ, refl, true, false, String, some, List, [], ◌∷◌, string_Eq}
use lil_tweak.Prelude.Table.{get, put}
use lil_tweak.Prelude.Text.{codes}
use lil_tweak.Prelude.Paths.{posix_parts, parents_of, starts_with}
use lil_tweak.Archives.Names.{ArchiveLimits, safe_name}
use lil_tweak.Archives.Inspection.{ArchiveEntry, ZipInfo, inspect_zip, inspect_entries}
use lil_tweak.Archives.Safety.Names.{IsFolding}
use lil_tweak.Archives.Safety.{IsSafeArchive, inspected_archive-IsSafe}

abbrev limits : ArchiveLimits
limits = record {
  max_entries = 3;
  max_depth = 4;
  max_file_bytes = 100;
  max_total_bytes = 150;
  max_compression_ratio = record { numerator = 100; denominator = 1 };
}

abbrev folded : String → String
folded s = s

folds : IsFolding folded
folds = record { of_append = λ a b. refl; of_slash = refl }

abbrev member : String → ℕ → ZipInfo
member name size = record {
  filename = name;
  flag_bits = 0;
  external_attr = 0;
  file_size = size;
  compress_size = 10;
}

abbrev members : List ZipInfo
members = member "src/" 0 ∷ member "src\\main.py" 80 ∷ member "./src/./test.py" 70 ∷ []

abbrev entry : String → ℕ → ArchiveEntry
entry path size = record { path = path; size = size; is_directory = false }

abbrev entries : List ArchiveEntry
entries =
    record { path = "src"; size = 0; is_directory = true }
    ∷ entry "src/main.py" 80
    ∷ entry "src/test.py" 70
    ∷ []

inspected_archive-IsSafe_example : IsSafeArchive folded limits entries
unfolding inspect_zip inspect_entries safe_name posix_parts parents_of starts_with codes get put
inspected_archive-IsSafe_example =
    inspected_archive-IsSafe folded limits (some members) entries folds refl
