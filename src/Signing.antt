-- ===== src/Signing.antt =====
-- core/lil_tweak/signing.py: the message that a request signs, and the test of a signed request.
pub mod Replays
pub mod Lines
pub mod Messages
pub mod Signatures
use lil_tweak.Prelude.{
  ℕ, ◌-◌, Bool, true, false, not, ◌&&◌, ◌||◌, String, Option, some, none, List, [], ◌∷◌, leb,
  if◌then◌else◌, ◌==◌, string_Eq, Result, ok, err, ◌>>=◌, ◌>>◌, guard,
}
use lil_tweak.Prelude.Text.{◌<>◌, is_blank, is_hex_text}
use lil_tweak.Prelude.Table.{Table, get}
use lil_tweak.Prelude.Paths.{has_code, starts_with}

-- What the code takes from libraries: HMAC with SHA-256 and SHA-256 in hexadecimal digits, `upper` and
-- `lower` of a text, `int` of a text, and a target in the form that urllib parses and quotes, if it is
-- only a path with a query. A time before the epoch counts as a text that is no number.
pub record SigningTools : Type 0 where
  pub hmac : String → String → String
  pub sha256 : List ℕ → String
  pub upper : String → String
  pub lower : String → String
  pub read_int : String → Option ℕ
  pub requote : String → Option String

-- The fields of a signed request.
pub record SignedFields : Type 0 where
  pub key_id : String
  pub method : String
  pub path_and_query : String
  pub timestamp : String
  pub nonce : String
  pub body_sha256 : String
  pub request_id : String
  pub idempotency_key : String
  pub owner_id : String

-- `AuthenticationError` and `ReplayError`.
pub data Rejection : Type 0 where
  authentication_failed request_replayed : Rejection

-- `"\n" in s or "\r" in s`
abbrev pub has_line_end : String → Bool
has_line_end s = has_code 10 s || has_code 13 s

-- A `ValueError` with its text.
abbrev pub Checked : Type 0 → Type 0
Checked A = Result String A

abbrev pub required_field : String → String → Checked String
required_field value label =
    if is_blank value || has_line_end value then err ("invalid " <> label) else ok value

abbrev pub optional_field : String → String → Checked String
optional_field value label = if has_line_end value then err ("invalid " <> label) else ok value

module _ (tools : SigningTools) where
  unfoldable pub canonical_target : String → Checked String
  unfolding starts_with
  canonical_target target =
      if not (starts_with "/" target) || has_line_end target
      then err "invalid request target"
      else elim (tools.requote target) [
        | none ↦ err "invalid request target"
        | some canonical ↦ ok canonical
      ]

  unfoldable pub canonical_request : SignedFields → Checked String
  unfolding canonical_target is_hex_text
  canonical_request r = do
    key_id ← required_field r.key_id "key id"
    method ← required_field r.method "method"
    timestamp ← required_field r.timestamp "timestamp"
    nonce ← required_field r.nonce "nonce"
    digest ← required_field r.body_sha256 "body digest"
    request_id ← required_field r.request_id "request id"
    idempotency_key ← optional_field r.idempotency_key "idempotency key"
    owner_id ← required_field r.owner_id "owner id"
    guard (is_hex_text 64 (tools.lower digest)) "invalid body digest"
    target ← canonical_target r.path_and_query
    ok (
        "v2\n"
        <> key_id
        <> "\n"
        <> tools.upper method
        <> "\n"
        <> target
        <> "\n"
        <> timestamp
        <> "\n"
        <> nonce
        <> "\n"
        <> tools.lower digest
        <> "\n"
        <> request_id
        <> "\n"
        <> idempotency_key
        <> "\n"
        <> owner_id)

  unfoldable pub sign_request : String → SignedFields → Checked String
  unfolding canonical_request
  sign_request key r = do
    guard (not (is_blank key)) "signing key is empty"
    message ← canonical_request r
    ok (tools.hmac key message)

  -- `abs(current - timestamp) <= max_clock_skew`
  abbrev pub is_near : ℕ → ℕ → ℕ → Bool
  is_near skew current timestamp = leb (current - timestamp) skew && leb (timestamp - current) skew

  -- The tests of `verify_request`, up to the nonce. Clock readings are whole seconds here, which `int`
  -- leaves as they are: `now` is what `int(time.time())` gives.
  unfoldable pub authentic : Table String String → ℕ → ℕ → SignedFields → String → List ℕ → Bool
  unfolding get sign_request
  authentic keys skew now r signature body = elim (tools.read_int r.timestamp) [
    | none ↦ false
    | some timestamp ↦ elim (get r.key_id keys) [
      | none ↦ false
      | some key ↦ elim (sign_request key r) [
        | err _ ↦ false
        | ok expected ↦
            is_near skew now timestamp
            && tools.sha256 body == tools.lower r.body_sha256
            && expected == tools.lower signature
      ]
    ]
  ]

  -- `consume` is the replay hook, on the state of the store of nonces.
  unfoldable pub verify_request :
      {S : Type 0}
      → Table String String
      → (String → String → S → Bool × S)
      → ℕ
      → ℕ
      → SignedFields
      → String
      → List ℕ
      → S
      → Result Rejection (Unit {0}) × S
  unfolding authentic
  verify_request keys consume skew now r signature body s =
      if not (authentic keys skew now r signature body)
      then (err authentication_failed, s)
      else let (fresh, after) = consume r.key_id r.nonce s in
        ((if fresh then ok tt else err request_replayed), after)
