-- ===== src/TestWorld/Queries.antt =====
-- The reading methods of `MemoryTestWorldStore`. A copy of a frozen record is the record.
use Prim.Native.Nat.{Ordering}
use Prim.Native.String as S
use lil_tweak.Prelude.{
  ℕ, Bool, true, false, not, ◌&&◌, ◌||◌, String, Option, some, none, List, [], ◌∷◌, length, select,
  take, between, leb, ltb, nat_eq, if◌then◌else◌, ◌==◌, string_Eq, ok, err, ◌>>=◌,
}
use lil_tweak.Prelude.Table.{get, values}
use lil_tweak.Prelude.Sorting.{sort_by}
use lil_tweak.TestWorld.Model.{
  bad_value, not_found, key_error, Outcome, World, Attempt, Lease, Store, is_queued,
}

-- The order of `(created_at, id)` and of `(updated_at, created_at, id)`.
abbrev string_lt : String → String → Bool
string_lt a b = elim (S.compare a b) [ Ordering.lt ↦ true | _ ↦ false ]

abbrev pub attempt_before : Attempt → Attempt → Bool
attempt_before a b =
    ltb a.created_at b.created_at || (nat_eq a.created_at b.created_at && string_lt a.id b.id)

abbrev world_before : World → World → Bool
world_before a b =
    ltb a.updated_at b.updated_at
    || (nat_eq a.updated_at b.updated_at
        && (ltb a.created_at b.created_at
            || (nat_eq a.created_at b.created_at && string_lt a.id b.id)))

unfoldable pub list_worlds : String → ℕ → Store → Outcome (List World)
unfolding sort_by
list_worlds owner limit s =
    if not (between 1 100 limit)
    then err (bad_value "invalid world limit")
    else ok (
        take limit
          (sort_by (λ a b. world_before b a) (select (λ w. w.owner_id == owner) (values s.worlds))))

-- `[(world, len(self._attempt_ids[world.id])) for world in worlds]`
unfoldable pub count_attempts : Store → List World → Outcome (List (World × ℕ))
count_attempts s [] = ok []
count_attempts s (w ∷ ws) =
    let rest = count_attempts s ws in
    elim (get w.id s.attempt_ids) [
      | none ↦ err key_error
      | some ids ↦ rest >>= λ counted. ok ((w, length ids) ∷ counted)
    ]

unfoldable pub list_worlds_with_attempt_counts : String → ℕ → Store → Outcome (List (World × ℕ))
unfolding list_worlds count_attempts
list_worlds_with_attempt_counts owner limit s = list_worlds owner limit s >>= count_attempts s

unfoldable pub get_world : String → String → Store → Option World
get_world id owner s = elim (get id s.worlds) [
  | none ↦ none
  | some w ↦ if w.owner_id == owner then some w else none
]

unfoldable pub get_attempt : String → String → Store → Option Attempt
get_attempt id owner s = elim (get id s.attempts) [
  | none ↦ none
  | some a ↦ if a.owner_id == owner then some a else none
]

-- `[self._attempts[item] for item in ids]`
unfoldable pub attempts_of : Store → List String → Outcome (List Attempt)
attempts_of s [] = ok []
attempts_of s (id ∷ ids) =
    let rest = attempts_of s ids in
    elim (get id s.attempts) [ none ↦ err key_error | some a ↦ rest >>= λ found. ok (a ∷ found) ]

unfoldable pub list_attempts : String → String → Store → Outcome (List Attempt)
unfolding get_world attempts_of
list_attempts id owner s = elim (get_world id owner s) [
  | none ↦ err (not_found "world not found")
  | some w ↦ elim (get id s.attempt_ids) [ none ↦ err key_error | some ids ↦ attempts_of s ids ]
]

-- `claim is None or claim.expires_at <= current_time`
abbrev pub is_free : Option Lease → ℕ → Bool
is_free none now = true
is_free (some lease) now = leb lease.expires_at now

-- Of the attempts in order, the first `limit` that are queued and not held.
unfoldable pub schedulable : Store → ℕ → Attempt → Bool
schedulable s now a = is_queued a.status && is_free (get a.id s.claims) now

unfoldable pub list_schedulable_attempts : ℕ → ℕ → Store → Outcome (List Attempt)
unfolding schedulable sort_by
list_schedulable_attempts now limit s =
    if not (between 1 1000 limit)
    then err (bad_value "invalid scheduler limit")
    else ok (take limit (select (schedulable s now) (sort_by attempt_before (values s.attempts))))
