-- ===== src/Signing/Replays.antt =====
-- What an accepted request was tested for, and signed requests that are sent again.
use lil_tweak.Prelude.{
  ℕ, ◌+◌, ◌≤◌, ◌<◌, ◌≡◌, ◌∙◌, ap, Bool, true, ◌&&◌, String, some, List, [], ◌∷◌, leb, ◌==◌,
  string_Eq, inl, inr, arith, eq_iff, Bool-cases, Option-cases, Result-cases, ok,
}
use lil_tweak.Prelude.Table.{Table, get}
use lil_tweak.Jobs.Model.{JobStore}
use lil_tweak.Jobs.Nonces.{consume_nonce, consume_all, NonceCall, IsBefore, nonce_is_single_use}
use lil_tweak.Signing.{SigningTools, SignedFields, sign_request, is_near, authentic, verify_request}

-- The request carries a signature, by a known key, of all its fields, the digest of its body, and a time within the skew.
pub record IsAuthentic (tools : SigningTools) (keys : Table String String) (skew now : ℕ)
    (r : SignedFields) (signature : String) (body : List ℕ) : Type 0 where
  pub timestamp : ℕ
  pub key : String
  pub has_time : tools.read_int r.timestamp ≡ some timestamp
  pub known : get r.key_id keys ≡ some key
  pub signed : sign_request tools key r ≡ ok (tools.lower signature)
  pub digested : tools.sha256 body ≡ tools.lower r.body_sha256
  pub early : timestamp ≤ now + skew
  pub late : now ≤ timestamp + skew

signed-IsAuthentic :
    (tools : SigningTools) (keys : Table String String) (skew now : ℕ) (r : SignedFields)
    (signature : String) (body : List ℕ) (timestamp : ℕ) (key expected : String)
    → tools.read_int r.timestamp ≡ some timestamp
    → get r.key_id keys ≡ some key
    → sign_request tools key r ≡ ok expected
    → (is_near tools skew now timestamp
        && tools.sha256 body == tools.lower r.body_sha256
        && expected == tools.lower signature)
      ≡ true
    → IsAuthentic tools keys skew now r signature body
signed-IsAuthentic tools keys skew now r signature body timestamp key expected time known signed h =
    record {
      timestamp = timestamp;
      key = key;
      has_time = time;
      known = known;
      signed = signed ∙ ap ok ((eq_iff expected (tools.lower signature)).0 (ground (arith, h)));
      digested = (eq_iff (tools.sha256 body) (tools.lower r.body_sha256)).0 (ground (arith, h));
      early = ground (arith, h);
      late = ground (arith, h);
    }

authentic-IsAuthentic :
    (tools : SigningTools) (keys : Table String String) (skew now : ℕ) (r : SignedFields)
    (signature : String) (body : List ℕ)
    → authentic tools keys skew now r signature body ≡ true
    → IsAuthentic tools keys skew now r signature body
unfolding authentic
authentic-IsAuthentic tools keys skew now r signature body h =
    elim (Option-cases (tools.read_int r.timestamp)) [
      | inl unread ↦ ground (arith, h, unread)
      | inr (timestamp, time) ↦ elim (Option-cases (get r.key_id keys)) [
        | inl unknown ↦ ground (arith, h, time, unknown)
        | inr (key, known) ↦ elim (Result-cases (sign_request tools key r)) [
          | inr (e, unsigned) ↦ ground (arith, h, time, known, unsigned)
          | inl (expected, signed) ↦
              signed-IsAuthentic tools keys skew now r signature body timestamp key expected time
                known signed (rw (time, known, signed, authentic) at h)
        ]
      ]
    ]

module _ (tools : SigningTools) (keys : Table String String) (skew : ℕ) (r : SignedFields)
    (signature : String) (body : List ℕ) where
  verify-accepted :
      {S : Type 0} (consume : String → String → S → Bool × S) (now : ℕ) (s : S)
      → (verify_request tools keys consume skew now r signature body s).0 ≡ ok tt
      → (authentic tools keys skew now r signature body ≡ true)
        × ((consume r.key_id r.nonce s).0 ≡ true)
        × ((verify_request tools keys consume skew now r signature body s).1
            ≡ (consume r.key_id r.nonce s).1)
  unfolding verify_request
  verify-accepted consume now s h =
      elim (Bool-cases (authentic tools keys skew now r signature body)) [
        | inr forged ↦ ground (arith, h, forged)
        | inl fair ↦ elim (Bool-cases (consume r.key_id r.nonce s).0) [
          | inr used ↦ ground (arith, h, fair, used)
          | inl fresh ↦ (fair, fresh, ground (arith, fair))
        ]
      ]

  -- A request that `verify_request` accepts carries the HMAC under a known key of the message of all its fields, the digest of its body, and a time within the skew; and the replay hook took its nonce as new, in the state in which the request came.
  pub accepted_request-IsAuthentic :
      {S : Type 0} (consume : String → String → S → Bool × S) (now : ℕ) (s : S)
      → (verify_request tools keys consume skew now r signature body s).0 ≡ ok tt
      → IsAuthentic tools keys skew now r signature body
        × ((consume r.key_id r.nonce s).0 ≡ true)
        × ((verify_request tools keys consume skew now r signature body s).1
            ≡ (consume r.key_id r.nonce s).1)
  accepted_request-IsAuthentic consume now s h =
      let (fair, fresh, after) = verify-accepted consume now s h in
      (authentic-IsAuthentic tools keys skew now r signature body fair, fresh, after)

sooner-IsBefore : (a b : ℕ) (calls : List NonceCall) → a ≤ b → IsBefore a calls → IsBefore b calls
sooner-IsBefore a b [] le h = tt
sooner-IsBefore a b ((k, n, now, later) ∷ calls) le h =
    (omega (arith, h.0, le), sooner-IsBefore a b calls le h.1)

-- The replay hook of the store, with the clock's reading.
abbrev pub consume_at : ℕ → String → String → JobStore → Bool × JobStore
consume_at now key_id nonce s = consume_nonce key_id nonce now now s

-- A request that was accepted is accepted again, by the store's nonces and a skew of 300, only at one edge: it was stamped exactly 300 ticks ahead of the first time, and comes again exactly 600 ticks later. Whatever nonces are consumed in between, and with one reading of the clock for each request.
pub replay_needs_the_edge :
    (tools : SigningTools) (keys : Table String String) (r : SignedFields) (signature : String)
    (body : List ℕ) (now now' timestamp : ℕ) (calls : List NonceCall) (s : JobStore)
    → tools.read_int r.timestamp ≡ some timestamp
    → (verify_request tools keys (consume_at now) 300 now r signature body s).0 ≡ ok tt
    → IsBefore (now' + 1) calls
    → (verify_request tools keys (consume_at now') 300 now' r signature body (
        consume_all calls
          (verify_request tools keys (consume_at now) 300 now r signature body s).1)).0
      ≡ ok tt
    → (timestamp ≡ now + 300) × (now' ≡ now + 600)
replay_needs_the_edge tools keys r signature body now now' timestamp calls s time first between
      again =
    let (fair, fresh, after) =
      verify-accepted tools keys 300 r signature body (consume_at now) now s first in
    let (fair', fresh', _) =
      verify-accepted tools keys 300 r signature body (consume_at now') now'
        (consume_all calls
          (verify_request tools keys (consume_at now) 300 now r signature body s).1)
        again in
    let a = authentic-IsAuthentic tools keys 300 now r signature body fair in
    let b = authentic-IsAuthentic tools keys 300 now' r signature body fair' in
    let stamp : a.timestamp ≡ timestamp = ground (arith, time, a.has_time) in
    let stamp' : b.timestamp ≡ timestamp = ground (arith, time, b.has_time) in
    elim (Bool-cases (leb (now + 600) now')) [
      | inl late ↦
          let reach : now + 600 ≤ now' = ground (arith, late) in
          (
            omega (arith, reach, a.early, b.late, stamp, stamp'),
            omega (arith, reach, a.early, b.late, stamp, stamp'),
          )
      | inr soon ↦
          let early : now' < now + 600 = ground (arith, soon) in
          ground (
            arith,
            rw after at fresh',
            nonce_is_single_use r.key_id r.nonce now now now' now' calls s fresh
                (sooner-IsBefore (now' + 1) (now + 600) calls (omega (arith, early)) between) early,
          )
    ]
