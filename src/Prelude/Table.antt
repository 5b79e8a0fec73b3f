-- ===== src/Prelude/Table.antt =====
-- Python's `dict`: an association list in insertion order. An update keeps the key's place.
use mathlib.Core.Path.{◌≡◌, refl, sym, ◌∙◌}
use mathlib.Core.Logic.{◌≢◌, ◌⊎◌, inl, inr}
use mathlib.Core.Bool.{false≢true}
use mathlib.Core.Option.{Option, none, some}
use mathlib.Core.List.{List, [], ◌∷◌, ◌++◌}
use native.Mathlib.Omega.{arith}
use lil_tweak.Prelude.Tests.{if◌then◌else◌, Bool-cases}
use lil_tweak.Prelude.Classes.{Eq, ◌==◌}

abbrev pub Table {ℓ κ} : Type ℓ → Type κ → Type (ℓ ⊔ κ)
Table K V = List (K × V)

module _ {ℓ κ} {K : Type ℓ} {V : Type κ} ⦃e : Eq K⦄ where
  -- `d.get(k)`
  unfoldable pub get : K → Table K V → Option V
  get k [] = none
  get k ((j, v) ∷ t) = if j == k then some v else get k t

  -- `d[k] = v`
  unfoldable pub put : K → V → Table K V → Table K V
  put k v [] = (k, v) ∷ []
  put k v ((j, w) ∷ t) = if j == k then (j, v) ∷ t else (j, w) ∷ put k v t

  -- `d.pop(k, None)`
  unfoldable pub remove : K → Table K V → Table K V
  remove k [] = []
  remove k ((j, w) ∷ t) = let rest = remove k t in if j == k then rest else (j, w) ∷ rest

  pub get-put :
      (k j : K) (v : V) (t : Table K V) → get j (put k v t) ≡ (if k == j then some v else get j t)
  unfolding get put
  get-put k j v [] = refl
  get-put k j v ((i, w) ∷ t) =
      ground (arith, e.agree_iff k j, e.agree_iff i k, e.agree_iff i j, get-put k j v t)

  pub get-remove :
      (k j : K) (t : Table K V) → get j (remove k t) ≡ (if k == j then none else get j t)
  unfolding get remove
  get-remove k j [] = ground arith
  get-remove k j ((i, w) ∷ t) =
      ground (arith, e.agree_iff k j, e.agree_iff i k, e.agree_iff i j, get-remove k j t)

-- `d.values()`
abbrev pub values {ℓ κ} : {K : Type ℓ} {V : Type κ} → Table K V → List V
values [] = []
values ((k, v) ∷ t) = v ∷ values t

pub ruleset table_laws = (get-put, get-remove)

module _ {ℓ κ} {K : Type ℓ} {V : Type κ} ⦃e : Eq K⦄ where
  pub get-put_self : (k : K) (v : V) (t : Table K V) → get k (put k v t) ≡ some v
  get-put_self k v t = rw (get-put k k v t, (e.agree_iff k k).1 refl)

  pub get-put_at : (k j : K) (v : V) (t : Table K V) → k ≡ j → get j (put k v t) ≡ some v
  get-put_at k j v t at_k = rw (← at_k) (get-put_self k v t)

  pub get-put_ne : (k j : K) (v : V) (t : Table K V) → k ≢ j → get j (put k v t) ≡ get j t
  get-put_ne k j v t ne = elim (Bool-cases (k == j)) [
    | inl same ↦ absurd (ne ((e.agree_iff k j).0 same))
    | inr other ↦ rw (get-put k j v t, other)
  ]

  -- What is read after a write was written, or was there under another key.
  pub put_found :
      (k j : K) (v : V) (t : Table K V) {x : V}
      → get j (put k v t) ≡ some x
      → ((k ≡ j) × (v ≡ x)) ⊎ ((k ≢ j) × (get j t ≡ some x))
  put_found k j v t h = elim (Bool-cases (k == j)) [
    | inl same ↦ inl ((e.agree_iff k j).0 same, ground (arith, get-put k j v t, h))
    | inr other ↦
        inr
          (λ p. false≢true (sym other ∙ (e.agree_iff k j).1 p), ground (arith, get-put k j v t, h))
  ]

  pub remove_found :
      (k j : K) (t : Table K V) {x : V} → get j (remove k t) ≡ some x → (k ≢ j) × (get j t ≡ some x)
  remove_found k j t h = elim (Bool-cases (k == j)) [
    | inl same ↦ cc (rw (get-remove k j t, same) at h)
    | inr other ↦
        (λ p. false≢true (sym other ∙ (e.agree_iff k j).1 p), rw (get-remove k j t, other) at h)
  ]

  -- A write removes no key.
  pub put_keeps :
      (k j : K) (v : V) (t : Table K V) {x : V}
      → get j t ≡ some x
      → (y : V) × (get j (put k v t) ≡ some y)
  put_keeps k j v t {x} h = elim (Bool-cases (k == j)) [
    | inl same ↦ (v, rw (get-put k j v t, same))
    | inr other ↦ (x, rw (get-put k j v t, other) h)
  ]

-- Each key once, as in every `dict`.
abbrev pub IsTable {ℓ κ} : {K : Type ℓ} {V : Type κ} ⦃e : Eq K⦄ → Table K V → Type κ
IsTable [] = Unit
IsTable ((k, v) ∷ t) = (get k t ≡ none) × IsTable t

abbrev pub All {ℓ κ} : {A : Type ℓ} → (A → Type κ) → List A → Type κ
All P [] = Unit
All P (x ∷ xs) = P x × All P xs

pub append-All {ℓ κ} :
    {A : Type ℓ} (P : A → Type κ) (xs ys : List A) → All P xs → All P ys → All P (xs ++ ys)
append-All P [] ys h k = k
append-All P (x ∷ xs) ys h k = (h.0, append-All P xs ys h.1 k)

pub imp-All {ℓ κ μ} :
    {A : Type ℓ} (P : A → Type κ) (Q : A → Type μ)
    → ((a : A) → P a → Q a)
    → (xs : List A) → All P xs
    → All Q xs
imp-All P Q step [] h = tt
imp-All P Q step (x ∷ xs) h = (step x h.0, imp-All P Q step xs h.1)

pub every-All {ℓ κ} : {A : Type ℓ} (P : A → Type κ) → ((a : A) → P a) → (xs : List A) → All P xs
every-All P h [] = tt
every-All P h (x ∷ xs) = (h x, every-All P h xs)

module _ {ℓ κ} {K : Type ℓ} {V : Type κ} ⦃e : Eq K⦄ where
  pub put-IsTable : (k : K) (v : V) (t : Table K V) → IsTable t → IsTable (put k v t)
  unfolding get put
  put-IsTable k v [] d = (refl, tt)
  put-IsTable k v ((j, w) ∷ t) d = elim (Bool-cases (j == k)) [
    | inl same ↦ rw same d
    | inr other ↦ rw other (
      rw (get-put k j v t) (ground (arith, e.agree_iff k j, e.agree_iff j k, d.0)),
      put-IsTable k v t d.1,
    )
  ]

  -- What holds of every value that can be read holds of `d.values()`.
  pub values-All {μ} :
      (P : V → Type μ) (t : Table K V)
      → IsTable t
      → ((k : K) (v : V) → get k t ≡ some v → P v)
      → All P (values t)
  unfolding get
  values-All P [] d h = tt
  values-All P ((k, v) ∷ t) d h = (
    h k v (ground (arith, e.agree_iff k k)),
    values-All P t d.1 (λ j w p. h j w (ground (arith, e.agree_iff k j, d.0, p))),
  )
