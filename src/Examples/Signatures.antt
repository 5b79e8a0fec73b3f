-- ===== src/Examples/Signatures.antt =====
-- A signed request, and the same request at the edge of the skew.
use lil_tweak.Prelude.{◌+◌, ◌≡◌, ◌⊎◌, refl, String, some, [], ◌∷◌, string_Eq, pair_Eq, arith}
use lil_tweak.Prelude.Text.{codes, is_hex_text}
use lil_tweak.Prelude.Table.{Table, get, put}
use lil_tweak.Prelude.Paths.{starts_with}
use lil_tweak.Jobs.Model.{JobStore}
use lil_tweak.Jobs.Logs.Runs.{empty_jobs}
use lil_tweak.Jobs.Nonces.{consume_nonce, consume_all, recent}
use lil_tweak.Signing.{
  SigningTools, SignedFields, verify_request, authentic, sign_request, canonical_request,
  canonical_target,
}
use lil_tweak.Signing.Replays.{consume_at, replay_needs_the_edge}
use lil_tweak.Signing.Messages.{IsLineKeeping, IsSameRequest}
use lil_tweak.Signing.Signatures.{IsCollision, signature_covers_all_fields}

abbrev digest : String
digest = "0123456789abcdef0123456789abcdef0123456789abcdef0123456789abcdef"

abbrev tools : SigningTools
tools = record {
  hmac = λ key message. "mac";
  sha256 = λ bytes. digest;
  upper = λ s. s;
  lower = λ s. s;
  read_int = λ s. some 1300;
  requote = λ s. some s;
}

abbrev request : SignedFields
request = record {
  key_id = "k";
  method = "POST";
  path_and_query = "/v1/jobs";
  timestamp = "1300";
  nonce = "n";
  body_sha256 = digest;
  request_id = "r";
  idempotency_key = "";
  owner_id = "o";
}

abbrev keys : Table String String
keys = ("k", "secret") ∷ []

abbrev at_first : JobStore
at_first = (verify_request tools keys (consume_at 1000) 300 1000 request "mac" [] empty_jobs).1

-- A signature that shows what it signs.
abbrev open_tools : SigningTools
open_tools = record tools { hmac = λ key message. message }

abbrev open_signature : String
open_signature =
    "v2\nk\nPOST\n/v1/jobs\n1300\nn\n0123456789abcdef0123456789abcdef0123456789abcdef0123456789abcdef\nr\n\no"

keeping : IsLineKeeping open_tools
keeping = record { upper_line = λ s h. h; target_line = λ s t e h. ground (arith, e, h) }

signature_covers_all_fields_example :
    IsCollision open_tools "secret" request request
    ⊎ (IsSameRequest open_tools request request × (digest ≡ digest))
unfolding verify_request authentic sign_request canonical_request canonical_target is_hex_text codes
    get put starts_with consume_nonce recent
signature_covers_all_fields_example =
    signature_covers_all_fields open_tools keys (consume_at 1000) 300 1000 request request
      open_signature "secret" [] empty_jobs keeping refl refl refl

replay_needs_the_edge_example : (1300 ≡ 1000 + 300) × (1600 ≡ 1000 + 600)
unfolding verify_request authentic sign_request canonical_request canonical_target is_hex_text codes
    get put starts_with consume_nonce recent consume_all
replay_needs_the_edge_example =
    replay_needs_the_edge tools keys request "mac" [] 1000 1600 1300 [] empty_jobs refl refl tt refl
