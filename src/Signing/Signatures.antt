-- ===== src/Signing/Signatures.antt =====
-- What a signature that `verify_request` accepts was made for.
use lil_tweak.Prelude.{
  ℕ, ◌≡◌, ◌≢◌, sym, ◌∙◌, ap, ◌⊎◌, Bool, String, some, List, ◌==◌, string_Eq, inl, inr, arith,
  eq_iff, Bool-cases, ok, Result-cases,
}
use lil_tweak.Prelude.Table.{Table, get}
use lil_tweak.Signing.{SigningTools, SignedFields, canonical_request, sign_request, verify_request}
use lil_tweak.Signing.Replays.{accepted_request-IsAuthentic}
use lil_tweak.Signing.Messages.{IsLineKeeping, IsSameRequest, message-IsSameRequest}

module _ (tools : SigningTools) where
  sign-eq :
      (key signature : String) (r : SignedFields)
      → sign_request tools key r ≡ ok signature
      → (m : String) × (canonical_request tools r ≡ ok m) × (tools.hmac key m ≡ signature)
  unfolding sign_request
  sign-eq key signature r h = elim (Result-cases (canonical_request tools r)) [
    | inl (m, p) ↦ (m, p, ground (arith, h, p))
    | inr (e, p) ↦ ground (arith, h, p)
  ]

  -- Two different messages with one HMAC under a key.
  pub record IsCollision (key : String) (r r' : SignedFields) : Type 0 where
    pub message : String
    pub message' : String
    pub of_first : canonical_request tools r ≡ ok message
    pub of_second : canonical_request tools r' ≡ ok message'
    pub differ : message ≢ message'
    pub one_hmac : tools.hmac key message ≡ tools.hmac key message'

  -- Let a signature be the one that `sign_request` makes for one request under a key, and let `verify_request` accept it, with letters of either case, for a second request that names the same key: then the second request is the first in all nine fields that are signed (its method, target and digest up to their canonical form), and its body has the digest that the first request names; or the messages of the two requests are an HMAC collision under the key. Capital letters and urllib bring no line feed.
  pub signature_covers_all_fields :
      {S : Type 0} (keys : Table String String) (consume : String → String → S → Bool × S)
      (skew now : ℕ) (r r' : SignedFields) (signature key : String) (body : List ℕ) (s : S)
      → IsLineKeeping tools
      → get r.key_id keys ≡ some key
      → sign_request tools key r' ≡ ok (tools.lower signature)
      → (verify_request tools keys consume skew now r signature body s).0 ≡ ok tt
      → IsCollision key r r'
        ⊎ (IsSameRequest tools r r' × (tools.sha256 body ≡ tools.lower r'.body_sha256))
  signature_covers_all_fields keys consume skew now r r' signature key body s keeping known signed
        accepted =
      let (a, _, _) =
        accepted_request-IsAuthentic tools keys skew r signature body consume now s accepted in
      let here : a.key ≡ key = ground (arith, known, a.known) in
      let (m, e, mac) = sign-eq key (tools.lower signature) r (rw here at a.signed) in
      let (m', e', mac') = sign-eq key (tools.lower signature) r' signed in
      elim (Bool-cases (m == m')) [
        | inl same ↦
            let agree =
              message-IsSameRequest tools r r' m keeping e
                (e' ∙ ap ok (sym ((eq_iff m m').0 same))) in
            inr (agree, a.digested ∙ agree.same_body_digest)
        | inr other ↦ inl (record {
          message = m;
          message' = m';
          of_first = e;
          of_second = e';
          differ = ground (arith, other, (eq_iff m m').1);
          one_hmac = mac ∙ sym mac';
        })
      ]
