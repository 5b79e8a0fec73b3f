-- ===== src/Recovery/Contracts/Strings.antt =====
-- `_normalize_strings` of contracts.py, and the `tuple(sorted(set(values)))` in it.
use Prim.Native.Nat.{Ordering}
use Prim.Native.String.{compare}
use lil_tweak.Prelude.{
  ◌||◌, String, List, [], ◌∷◌, ltb, any, length, if◌then◌else◌, Result, ok, err,
}
use lil_tweak.Prelude.Text.{codes, is_blank}

-- One more element of a sorted list without repetitions; a text that is there is not added again.
unfoldable pub insert_unique : String → List String → List String
insert_unique s [] = s ∷ []
insert_unique s (t ∷ rest) =
    let later = insert_unique s rest in
    elim (compare s t) [
      | Ordering.lt ↦ s ∷ t ∷ rest
      | Ordering.eq ↦ t ∷ rest
      | Ordering.gt ↦ t ∷ later
    ]

-- `tuple(sorted(set(values)))`: Python orders texts by code points, as `compare` does.
unfoldable pub sort_unique : List String → List String
unfolding insert_unique
sort_unique [] = []
sort_unique (s ∷ rest) = insert_unique s (sort_unique rest)

unfoldable pub normalize_strings : List String → String → Result String (List String)
unfolding sort_unique codes
normalize_strings values code =
    if any (λ v. is_blank v || ltb 256 (length (codes v))) values
    then err code
    else ok (sort_unique values)
