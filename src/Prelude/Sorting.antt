-- ===== src/Prelude/Sorting.antt =====
-- Python's `sorted` by an order.
use mathlib.Core.Bool.{Bool}
use mathlib.Core.List.{List, [], ◌∷◌}
use lil_tweak.Prelude.Tests.{if◌then◌else◌}

-- Python's sort is stable: an element goes behind those that it does not come before.
module _ {A : Type 0} (before : A → A → Bool) where
  unfoldable pub insert_by : A → List A → List A
  insert_by x [] = x ∷ []
  insert_by x (y ∷ ys) = let later = insert_by x ys in if before y x then y ∷ later else x ∷ y ∷ ys

  unfoldable pub sort_by : List A → List A
  unfolding insert_by
  sort_by [] = []
  sort_by (x ∷ xs) = insert_by x (sort_by xs)
