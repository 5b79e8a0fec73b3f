-- ===== src/Signing/Messages.antt =====
-- The message of `canonical_request`: ten lines, from which the fields can be read again.
use text.Mathlib.TextLemmas.{append_assoc}
use lil_tweak.Prelude.{
  ◌≡◌, refl, sym, ◌∙◌, true, String, some, List, [], ◌∷◌, string_Eq, arith, Result, ok, >>=-eq-ok,
  after_guard,
}
use lil_tweak.Prelude.Text.{◌<>◌, is_hex_text}
use lil_tweak.Prelude.Table.{All}
use lil_tweak.Signing.{
  SigningTools, SignedFields, canonical_target, canonical_request, required_field, optional_field,
}
use lil_tweak.Signing.Lines.{IsLine, join_lines, same_lines, hex-IsLine}

required-eq :
    (value label x : String) → required_field value label ≡ ok x → (x ≡ value) × IsLine value
required-eq value label x h = ground (arith, h)

optional-eq :
    (value label x : String) → optional_field value label ≡ ok x → (x ≡ value) × IsLine value
optional-eq value label x h = ground (arith, h)

module _ (tools : SigningTools) where
  -- The lines of the message, for a target that was put into its canonical form.
  signed_lines : SignedFields → String → List String
  signed_lines r target =
      "v2"
      ∷ r.key_id
      ∷ tools.upper r.method
      ∷ target
      ∷ r.timestamp
      ∷ r.nonce
      ∷ tools.lower r.body_sha256
      ∷ r.request_id
      ∷ r.idempotency_key
      ∷ r.owner_id
      ∷ []

  -- Capital letters bring no line feed, and neither does urllib into a target.
  pub record IsLineKeeping : Type 0 where
    pub upper_line : (s : String) → IsLine s → IsLine (tools.upper s)
    pub target_line : (s t : String) → tools.requote s ≡ some t → IsLine s → IsLine t

  target-IsLine : (s t : String) → IsLineKeeping → canonical_target tools s ≡ ok t → IsLine t
  unfolding canonical_target
  target-IsLine s t keeping h = ground (arith, h, keeping.target_line s t)

  digest-IsLine : (s : String) → is_hex_text 64 s ≡ true → IsLine s
  unfolding is_hex_text
  digest-IsLine s h = hex-IsLine s (ground (arith, h))

  -- What is returned at the end of `canonical_request`, as the lines of the request.
  message-lines :
      (r : SignedFields)
      (m target key_id method timestamp nonce digest request_id key owner : String)
      → key_id ≡ r.key_id
      → method ≡ r.method
      → timestamp ≡ r.timestamp
      → nonce ≡ r.nonce
      → digest ≡ r.body_sha256
      → request_id ≡ r.request_id
      → key ≡ r.idempotency_key
      → owner ≡ r.owner_id
      → ◌≡◌ {A = Result String String}
          (ok (
            "v2\n"
            <> key_id
            <> "\n"
            <> tools.upper method
            <> "\n"
            <> target
            <> "\n"
            <> timestamp
            <> "\n"
            <> nonce
            <> "\n"
            <> tools.lower digest
            <> "\n"
            <> request_id
            <> "\n"
            <> key
            <> "\n"
            <> owner))
          (ok m)
      → m ≡ join_lines (signed_lines r target)
  unfolding signed_lines join_lines
  message-lines r m target key_id method timestamp nonce digest request_id key owner a b c d e f g o
        h =
      cc (
        a,
        b,
        c,
        d,
        e,
        f,
        g,
        o,
        h,
        append_assoc "v2" "\n" (
            join_lines (
              r.key_id
              ∷ tools.upper r.method
              ∷ target
              ∷ r.timestamp
              ∷ r.nonce
              ∷ tools.lower r.body_sha256
              ∷ r.request_id
              ∷ r.idempotency_key
              ∷ r.owner_id
              ∷ [])),
      )

  -- What `canonical_request` has checked, and the message that it makes.
  record IsMessage (r : SignedFields) (m : String) : Type 0 where
    pub target : String
    pub canonical : canonical_target tools r.path_and_query ≡ ok target
    pub key_id_line : IsLine r.key_id
    pub method_line : IsLine r.method
    pub time_line : IsLine r.timestamp
    pub nonce_line : IsLine r.nonce
    pub request_line : IsLine r.request_id
    pub idempotency_line : IsLine r.idempotency_key
    pub owner_line : IsLine r.owner_id
    pub digest_hex : is_hex_text 64 (tools.lower r.body_sha256) ≡ true
    pub lines : m ≡ join_lines (signed_lines r target)

  request-IsMessage :
      (r : SignedFields) (m : String) → canonical_request tools r ≡ ok m → IsMessage r m
  unfolding canonical_request
  request-IsMessage r m h =
      let (key_id, a, h1) = >>=-eq-ok (required_field r.key_id "key id") _ h in
      let (method, b, h2) = >>=-eq-ok (required_field r.method "method") _ h1 in
      let (timestamp, c, h3) = >>=-eq-ok (required_field r.timestamp "timestamp") _ h2 in
      let (nonce, d, h4) = >>=-eq-ok (required_field r.nonce "nonce") _ h3 in
      let (digest, e, h5) = >>=-eq-ok (required_field r.body_sha256 "body digest") _ h4 in
      let (request_id, f, h6) = >>=-eq-ok (required_field r.request_id "request id") _ h5 in
      let (key, g, h7) = >>=-eq-ok (optional_field r.idempotency_key "idempotency key") _ h6 in
      let (owner, o, h8) = >>=-eq-ok (required_field r.owner_id "owner id") _ h7 in
      let (hex, h9) =
        after_guard (is_hex_text 64 (tools.lower digest)) "invalid body digest" _ h8 in
      let (target, t, h10) = >>=-eq-ok (canonical_target tools r.path_and_query) _ h9 in
      let ka = required-eq r.key_id "key id" key_id a in
      let kb = required-eq r.method "method" method b in
      let kc = required-eq r.timestamp "timestamp" timestamp c in
      let kd = required-eq r.nonce "nonce" nonce d in
      let ke = required-eq r.body_sha256 "body digest" digest e in
      let kf = required-eq r.request_id "request id" request_id f in
      let kg = optional-eq r.idempotency_key "idempotency key" key g in
      let ko = required-eq r.owner_id "owner id" owner o in
      record {
        target = target;
        canonical = t;
        key_id_line = ka.1;
        method_line = kb.1;
        time_line = kc.1;
        nonce_line = kd.1;
        request_line = kf.1;
        idempotency_line = kg.1;
        owner_line = ko.1;
        digest_hex = rw ke.0 at hex;
        lines =
            message-lines r m target key_id method timestamp nonce digest request_id key owner ka.0
              kb.0 kc.0 kd.0 ke.0 kf.0 kg.0 ko.0 h10;
      }

  message-All :
      (r : SignedFields) (m : String) (k : IsMessage r m)
      → IsLineKeeping
      → All IsLine (signed_lines r k.target)
  unfolding signed_lines
  message-All r m k keeping = ground (
    arith,
    k.key_id_line,
    keeping.upper_line r.method k.method_line,
    target-IsLine r.path_and_query k.target keeping k.canonical,
    k.time_line,
    k.nonce_line,
    digest-IsLine (tools.lower r.body_sha256) k.digest_hex,
    k.request_line,
    k.idempotency_line,
    k.owner_line,
  )

  -- The two requests agree in what is signed: letters of the method and of the digest count in capitals and in small letters, and the target in its canonical form.
  pub record IsSameRequest (r r' : SignedFields) : Type 0 where
    pub same_key : r.key_id ≡ r'.key_id
    pub same_method : tools.upper r.method ≡ tools.upper r'.method
    pub same_target :
        canonical_target tools r.path_and_query ≡ canonical_target tools r'.path_and_query
    pub same_time : r.timestamp ≡ r'.timestamp
    pub same_nonce : r.nonce ≡ r'.nonce
    pub same_body_digest : tools.lower r.body_sha256 ≡ tools.lower r'.body_sha256
    pub same_request : r.request_id ≡ r'.request_id
    pub same_idempotency : r.idempotency_key ≡ r'.idempotency_key
    pub same_owner : r.owner_id ≡ r'.owner_id

  lines-IsSameRequest :
      (r r' : SignedFields) (target target' : String)
      → canonical_target tools r.path_and_query ≡ ok target
      → canonical_target tools r'.path_and_query ≡ ok target'
      → signed_lines r target ≡ signed_lines r' target'
      → IsSameRequest r r'
  unfolding signed_lines
  lines-IsSameRequest r r' target target' t t' e = record {
    same_key = cc e;
    same_method = cc e;
    same_target = cc (e, t, t');
    same_time = cc e;
    same_nonce = cc e;
    same_body_digest = cc e;
    same_request = cc e;
    same_idempotency = cc e;
    same_owner = cc e;
  }

  pub message-IsSameRequest :
      (r r' : SignedFields) (m : String)
      → IsLineKeeping
      → canonical_request tools r ≡ ok m
      → canonical_request tools r' ≡ ok m
      → IsSameRequest r r'
  unfolding signed_lines
  message-IsSameRequest r r' m keeping h h' =
      let k = request-IsMessage r m h in
      let k' = request-IsMessage r' m h' in
      lines-IsSameRequest r r' k.target k'.target k.canonical k'.canonical (
        same_lines (signed_lines r k.target) (signed_lines r' k'.target) refl
          (message-All r m k keeping) (message-All r' m k' keeping) (sym k.lines ∙ k'.lines))
