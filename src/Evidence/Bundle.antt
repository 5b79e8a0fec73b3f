-- ===== src/Evidence/Bundle.antt =====
-- `build_evidence_bundle` of core/lil_tweak/evidence.py. The bytes of an artifact are a text in UTF-8.
use lil_tweak.Prelude.{
  true, ℕ, not, ◌&&◌, ◌++◌, String, [], ◌∷◌, any, leb, ltb, map, string_Eq, ok, ◌>>◌, guard,
}
use lil_tweak.Prelude.Text.{◌<>◌, utf8_len}
use lil_tweak.Prelude.Table.{Table}
use lil_tweak.Json.{Fields, nat, text, obj, end, field}
use lil_tweak.Json.Print.{dumps}
use lil_tweak.Contracts.{max_evidence_bytes}
use lil_tweak.Evidence.Snapshots.{Evidenced}

pub record EvidenceBundle : Type 0 where
  pub files : Table String String
  pub proposal_digest : String
  pub artifact_hashes : Table String String

-- The artifacts that the caller gives.
pub record Artifacts : Type 0 where
  pub plan : String
  pub patch : String
  pub tests : String
  pub summary : String

abbrev pub artifact_files : Artifacts → Table String String
artifact_files a =
    ("plan.md", a.plan)
    ∷ ("changes.patch", a.patch)
    ∷ ("tests.log", a.tests)
    ∷ ("summary.md", a.summary)
    ∷ []

module _ (sha256 : String → String) where
  artifact_entry : String → Fields
  artifact_entry bytes =
      field "sha256" (text (sha256 bytes)) (field "bytes" (nat (utf8_len bytes)) end)

  unfoldable pub proposal_of : Artifacts → Fields → Fields
  unfolding artifact_entry
  proposal_of a metadata = field "version" (nat 1) (
      field "artifacts"
        (obj (
          field "changes.patch" (obj (artifact_entry a.patch)) (
            field "plan.md" (obj (artifact_entry a.plan)) (
              field "summary.md" (obj (artifact_entry a.summary))
                (field "tests.log" (obj (artifact_entry a.tests)) end)))))
        (field "run" (obj metadata) end))

  -- `hashlib.sha256(_canonical_json(proposal)).hexdigest()`
  unfoldable pub proposal_digest_of : Artifacts → Fields → String
  unfolding proposal_of dumps
  proposal_digest_of a metadata = sha256 (dumps true (obj (proposal_of a metadata)))

  with_digest : Fields → String → Fields
  with_digest end digest = field "proposal_digest" (text digest) end
  with_digest (field k v rest) digest = field k v (with_digest rest digest)

  unfoldable pub manifest_text : Artifacts → Fields → String
  unfolding with_digest proposal_digest_of
  manifest_text a metadata =
      dumps true (obj (with_digest (proposal_of a metadata) (proposal_digest_of a metadata)))
      <> "\n"

  abbrev hashed : Table String String → Table String String
  hashed files = map (λ f. (f.0, sha256 f.1)) files

  unfoldable pub build_evidence_bundle : Artifacts → Fields → ℕ → Evidenced EvidenceBundle
  unfolding manifest_text proposal_digest_of
  build_evidence_bundle a metadata max_manifest_bytes = do
    guard (not (any (λ f. ltb max_evidence_bytes (utf8_len f.1)) (artifact_files a)))
        "evidence_artifact_too_large"
    guard
        (leb 1 max_manifest_bytes
          && leb (utf8_len (manifest_text a metadata)) max_manifest_bytes
          && leb (utf8_len (manifest_text a metadata)) max_evidence_bytes)
        "manifest_too_large"
    ok (record {
      files = artifact_files a ++ ("manifest.json", manifest_text a metadata) ∷ [];
      proposal_digest = proposal_digest_of a metadata;
      artifact_hashes =
          hashed (artifact_files a ++ ("manifest.json", manifest_text a metadata) ∷ []);
    })
