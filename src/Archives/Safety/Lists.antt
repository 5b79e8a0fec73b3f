-- ===== src/Archives/Safety/Lists.antt =====
-- Lists of entries: pairs, sums, and tests that no element passes.
use lil_tweak.Prelude.{
  ℕ, ◌+◌, ◌≡◌, refl, Bool, true, false, String, some, List, [], ◌∷◌, ◌++◌, any, ◌==◌, string_Eq,
  inl, inr, arith, eq_iff, Bool-cases,
}
use lil_tweak.Prelude.Table.{Table, get, All, append-All}
use lil_tweak.Archives.Inspection.{ArchiveEntry}

abbrev pub total_size : List ArchiveEntry → ℕ
total_size [] = 0
total_size (e ∷ es) = e.size + total_size es

-- Each pair of a list, the earlier one first.
abbrev pub Pairwise : {A : Type 0} → (A → A → Type 0) → List A → Type 0
Pairwise P [] = Unit
Pairwise P (x ∷ xs) = All (P x) xs × Pairwise P xs

pub Pairwise-snoc :
    {A : Type 0} (P : A → A → Type 0) (xs : List A) (y : A)
    → Pairwise P xs
    → All (λ x. P x y) xs
    → Pairwise P (xs ++ y ∷ [])
Pairwise-snoc P [] y h k = (tt, tt)
Pairwise-snoc P (x ∷ xs) y h k =
    (append-All (P x) xs (y ∷ []) h.0 (k.0, tt), Pairwise-snoc P xs y h.1 k.1)

pub total_size-snoc :
    (es : List ArchiveEntry) (e : ArchiveEntry) → total_size (es ++ e ∷ []) ≡ total_size es + e.size
total_size-snoc [] e = omega arith
total_size-snoc (x ∷ es) e = omega (arith, total_size-snoc es e)

-- What holds for no element of a list holds for none that it follows from.
pub any-imp :
    {A : Type 0} (f g : A → Bool) (xs : List A)
    → All (λ x. f x ≡ true → g x ≡ true) xs
    → any g xs ≡ false
    → any f xs ≡ false
any-imp f g [] step h = refl
any-imp f g (x ∷ xs) step h = elim (Bool-cases (f x)) [
  | inl holds ↦ ground (arith, h, step.0 holds)
  | inr fails ↦ ground (arith, fails, any-imp f g xs step.1 (ground (arith, h)))
]

pub none-any :
    {A : Type 0} (f : A → Bool) (xs : List A) → All (λ x. f x ≡ false) xs → any f xs ≡ false
none-any f [] h = refl
none-any f (x ∷ xs) h = ground (arith, h.0, none-any f xs h.1)

pub get-any :
    (k : String) (v : Bool) (test : String → Bool) (t : Table String Bool)
    → get k t ≡ some v
    → test k ≡ true
    → any (λ e. test e.0) t ≡ true
unfolding get
get-any k v test [] h yes_k = ground (arith, h)
get-any k v test ((j, w) ∷ t) h yes_k = elim (Bool-cases (j == k)) [
  | inl same ↦ ground (arith, yes_k, (eq_iff j k).0 same)
  | inr other ↦ ground (arith, get-any k v test t (ground (arith, h, other)) yes_k)
]
