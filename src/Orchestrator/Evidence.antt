-- ===== src/Orchestrator/Evidence.antt =====
-- How `run_job` builds its evidence: metadata, approval binding, bundle, and the stored manifest.
use lil_tweak.Prelude.{
  ℕ, ◌+◌, Bool, true, false, not, ◌&&◌, ◌||◌, String, Option, some, none, [], ◌∷◌, nat_eq,
  if◌then◌else◌, string_Eq, Result, ok, err,
}
use lil_tweak.Prelude.Text.{◌<>◌, is_blank}
use lil_tweak.Prelude.Table.{Table, get}
use lil_tweak.Json.{Json, null, nat, text, obj, Fields, end, field, field_count, get_field, is_text}
use lil_tweak.Contracts.{JobMode, chat}
use lil_tweak.Evidence.Bundle.{EvidenceBundle}
use lil_tweak.Orchestrator.Session.{M, Fault, fault, give, lift, ◌>>=◌, ◌>>◌}
use lil_tweak.Orchestrator.Host.{Host, AgentResult}
use lil_tweak.Orchestrator.Moves.{renew_lease}

-- `external_action == {"effect": "export_patch", "target": "owner_download"}`
unfoldable pub is_export_action : Fields → Bool
is_export_action a =
    nat_eq (field_count a) 2
    && is_text "export_patch" (get_field "effect" a)
    && is_text "owner_download" (get_field "target" a)

abbrev pub is_chat : JobMode → Bool
is_chat chat = true
is_chat _ = false

-- The two tests of `external_action` that raise.
unfoldable pub check_action : JobMode → Option Fields → Result Fault (Unit {0})
unfolding is_export_action
check_action mode none = ok tt
check_action mode (some a) =
    if is_chat mode
    then err (fault "chat cannot propose external actions")
    else if is_export_action a
    then ok tt
    else err (fault "unsupported external action")

abbrev pub is_some {ℓ} : {A : Type ℓ} → Option A → Bool
is_some none = false
is_some (some _) = true

-- `not timed_out and (bool(patch) or external_action is not None)`
unfoldable pub needs_approval : Bool → String → Option Fields → Bool
needs_approval timed_out patch action = not timed_out && (not (is_blank patch) || is_some action)

-- `{**a, **b}`, for dictionaries with no key in common.
unfoldable pub join_fields : Fields → Fields → Fields
join_fields end b = b
join_fields (field k v rest) b = field k v (join_fields rest b)

resource_profile : ℕ → Fields
resource_profile wall_seconds = field "cpus" (nat 1) (
    field "memory" (text "1g")
      (field "pids" (nat 256) (field "wallSeconds" (nat wall_seconds) end)))

unfoldable pub approval_binding : Host → String → ℕ → Fields
unfolding resource_profile
approval_binding h source_digest now = field "action" (text "export_patch") (
    field "target" (text "owner_download") (
      field "policyVersion" (text "v1") (
        field "resourceProfile" (obj (resource_profile h.job_timeout_seconds)) (
          field "sourceDigest" (text source_digest)
            (field "expiresAt" (text (h.iso_timestamp (now + 300))) end)))))

abbrev optional_obj : Option Fields → Json
optional_obj none = null
optional_obj (some d) = obj d

abbrev optional_json : Option Json → Json
optional_json none = null
optional_json (some v) = v

-- The dictionary `metadata` after the metadata of the commands and of the journal.
unfoldable pub run_metadata :
    String → String → Option Fields → ℕ → ℕ → AgentResult → Option Json → Fields
run_metadata source final binding started finished result receipt =
    field "source_digest" (text source) (
      field "proposal_source_digest" (text final) (
        field "approval" (optional_obj binding) (
          field "limits"
            (obj (field "network" (text "none") (field "max_tool_rounds" (nat 40) end)))
            (field "started_at_epoch" (nat started) (
              field "finished_at_epoch" (nat finished) (
                field "model_usage"
                  (obj (
                    field "calls" (nat result.model_calls) (
                      field "input_tokens" (nat result.input_tokens) (
                        field "output_tokens" (nat result.output_tokens)
                          (field "total_tokens" (nat result.total_tokens) end)))))
                  (field "github_runner" (optional_json receipt) end)))))))

-- The entry of the manifest that names one stored file.
manifest_entry : String → String → ℕ → Fields
manifest_entry key digest size =
    field "sha256" (text digest) (field "bytes" (nat size) (field "objectKey" (text key) end))

-- `bundle.artifact_hashes[name]`
hash_of : String → Table String String → Result Fault String
unfolding get
hash_of name hashes = elim (get name hashes) [
  | none ↦ err (fault "KeyError")
  | some digest ↦ ok digest
]

module _ (h : Host) where
  -- The loop over `bundle.files.items()`; the manifest lists the files in that order.
  unfoldable pub store_files : String → Table String String → Table String String → M Fields
  unfolding hash_of manifest_entry
  store_files prefix hashes [] = give end
  store_files prefix hashes ((name, bytes) ∷ rest) = do
    renew_lease h
    digest ← lift (hash_of name hashes)
    stored ← lift (h.put_evidence (prefix <> name) bytes digest)
    others ← store_files prefix hashes rest
    give (field name (obj (manifest_entry (prefix <> name) stored.sha256 stored.size)) others)

  unfoldable pub store_bundle : String → String → EvidenceBundle → M Fields
  unfolding store_files
  store_bundle owner job_id bundle =
      store_files (h.sha256 owner <> "/" <> job_id <> "/" <> bundle.proposal_digest <> "/")
        bundle.artifact_hashes bundle.files
