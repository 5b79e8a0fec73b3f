-- ===== src/Jobs/Nonces.antt =====
-- `consume_nonce` of `MemoryJobStore`: a nonce counts once within ten minutes.
use lil_tweak.Prelude.{
  ℕ, ◌+◌, ◌<◌, ◌≡◌, Bool, true, false, ◌||◌, String, some, none, List, [], ◌∷◌, ltb, if◌then◌else◌,
  string_Eq, pair_Eq, pair_beq_iff, arith,
}
use lil_tweak.Prelude.Text.{is_blank}
use lil_tweak.Prelude.Table.{Table, get, put, get-put, get-put_self}
use lil_tweak.Jobs.Model.{JobStore}

-- The nonces that were consumed after `now - 600`.
unfoldable pub recent : ℕ → Table (String × String) ℕ → Table (String × String) ℕ
recent now [] = []
recent now ((k, consumed_at) ∷ t) =
    let rest = recent now t in if ltb now (consumed_at + 600) then (k, consumed_at) ∷ rest else rest

-- `now` and `later` are the clock's readings before and after the search.
unfoldable pub consume_nonce : String → String → ℕ → ℕ → JobStore → Bool × JobStore
consume_nonce key_id nonce now later s =
    if is_blank key_id || is_blank nonce
    then (false, s)
    else elim (get {K = String × String} (key_id, nonce) (recent now s.nonces)) [
      | some _ ↦ (false, record s { nonces = recent now s.nonces })
      | none ↦ (
        true,
        record s { nonces = put {K = String × String} (key_id, nonce) later (recent now s.nonces) },
      )
    ]

recent-get :
    (k : String × String) (now at : ℕ) (t : Table (String × String) ℕ)
    → get k t ≡ some at
    → now < at + 600
    → get k (recent now t) ≡ some at
unfolding get recent
recent-get k now at [] h fresh = cc h
recent-get k now at ((j, a) ∷ t) h fresh = ground (arith, recent-get k now at t, h, fresh)

-- A call of `consume_nonce`: key, nonce and the two readings of the clock.
abbrev pub NonceCall : Type 0
NonceCall = String × String × ℕ × ℕ

unfoldable pub consume_all : List NonceCall → JobStore → JobStore
consume_all [] s = s
consume_all ((key_id, nonce, now, later) ∷ calls) s =
    consume_all calls (consume_nonce key_id nonce now later s).1

-- Every call is made before this time.
abbrev pub IsBefore : ℕ → List NonceCall → Type 0
IsBefore end [] = Unit
IsBefore end ((key_id, nonce, now, later) ∷ calls) = (now < end) × IsBefore end calls

consume-keeps :
    (key_id nonce : String) (k : String × String) (now later at : ℕ) (s : JobStore)
    → get k s.nonces ≡ some at
    → now < at + 600
    → get k (consume_nonce key_id nonce now later s).1.nonces ≡ some at
unfolding consume_nonce
consume-keeps key_id nonce k now later at s h fresh =
    let kept = recent-get k now at s.nonces h fresh in
    ground (
      arith,
      kept,
      h,
      pair_beq_iff (key_id, nonce) k,
      get-put {K = String × String} (key_id, nonce) k later (recent now s.nonces),
    )

consume-held :
    (key_id nonce : String) (now later at : ℕ) (s : JobStore)
    → get {K = String × String} (key_id, nonce) s.nonces ≡ some at
    → now < at + 600
    → (consume_nonce key_id nonce now later s).0 ≡ false
unfolding consume_nonce
consume-held key_id nonce now later at s h fresh =
    let kept = recent-get (key_id, nonce) now at s.nonces h fresh in ground (arith, kept)

consumed_at :
    (key_id nonce : String) (now later : ℕ) (s : JobStore)
    → (consume_nonce key_id nonce now later s).0 ≡ true
    → get {K = String × String} (key_id, nonce) (consume_nonce key_id nonce now later s).1.nonces
      ≡ some later
unfolding consume_nonce
consumed_at key_id nonce now later s h =
    ground
      (arith, h, get-put_self {K = String × String} (key_id, nonce) later (recent now s.nonces))

consume_all-keeps :
    (calls : List NonceCall) (k : String × String) (at : ℕ) (s : JobStore)
    → get k s.nonces ≡ some at
    → IsBefore (at + 600) calls
    → get k (consume_all calls s).nonces ≡ some at
unfolding consume_all
consume_all-keeps [] k at s h b = h
consume_all-keeps ((key_id, nonce, now, later) ∷ calls) k at s h b =
    consume_all-keeps calls k at (consume_nonce key_id nonce now later s).1
      (consume-keeps key_id nonce k now later at s h b.0) b.1

-- A nonce that `consume_nonce` accepted is refused by every later call made less than 600 ticks after the time at which it was stored, whatever nonces are consumed in between within that time.
pub nonce_is_single_use :
    (key_id nonce : String) (now later now' later' : ℕ) (calls : List NonceCall) (s : JobStore)
    → (consume_nonce key_id nonce now later s).0 ≡ true
    → IsBefore (later + 600) calls
    → now' < later + 600
    → (consume_nonce key_id nonce now' later'
        (consume_all calls (consume_nonce key_id nonce now later s).1)).0
      ≡ false
nonce_is_single_use key_id nonce now later now' later' calls s accepted before soon =
    consume-held key_id nonce now' later' later
      (consume_all calls (consume_nonce key_id nonce now later s).1)
      (consume_all-keeps calls (key_id, nonce) later (consume_nonce key_id nonce now later s).1
        (consumed_at key_id nonce now later s accepted) before)
      soon
