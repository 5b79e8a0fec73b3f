-- ===== src/Archives/Paths.antt =====
-- The parts of a path: what a safe name is made of, and how a path contains its parents.
use Prim.Native.Char.{Char, code}
use text.Mathlib.TextLemmas.{cons-append, nil-append, append_assoc}
use lil_tweak.Prelude.{
  ◌≡◌, refl, ap, ◌∙◌, Bool, true, false, String, List, [], ◌∷◌, map, select, nat_eq, string_Eq, inl,
  inr, arith, nat_eq_iff, Bool-cases,
}
use lil_tweak.Prelude.Text.{◌<>◌}
use lil_tweak.Prelude.Table.{All, append-All}
use lil_tweak.Prelude.Paths.{
  joined_to, split_slash, is_part, posix_parts, join_slash, has_code, starts_with, proper_prefixes,
  parents_of,
}

-- A text without a slash.
abbrev pub IsSlashless : String → Type 0
IsSlashless s = has_code b'/' s ≡ false

one-append : (c : Char) (s : String) → String.◌∷◌ c "" <> s ≡ String.◌∷◌ c s
one-append c s = cons-append c "" s ∙ ap (λ (z : String). String.◌∷◌ c z) (nil-append s)

IsSlashless-cons :
    (c : Char) (s : String)
    → IsSlashless (String.◌∷◌ c s)
    → (nat_eq (code c) b'/' ≡ false) × IsSlashless s
IsSlashless-cons c s h = elim (Bool-cases (nat_eq (code c) b'/')) [
  | inl slash ↦ ground (arith, h, slash)
  | inr other ↦ (other, ground (arith, h, other))
]

joined-IsSlashless :
    (c : Char) (pieces : List String)
    → nat_eq (code c) b'/' ≡ false
    → All IsSlashless pieces
    → All IsSlashless (joined_to (String.◌∷◌ c "") pieces)
joined-IsSlashless c [] other h = (ground (arith, other), tt)
joined-IsSlashless c (piece ∷ pieces) other h =
    (rw (one-append c piece) (ground (arith, other, h.0)), h.1)

pub split-IsSlashless : (s : String) → All IsSlashless (split_slash s)
unfolding split_slash
split-IsSlashless String.[] = (refl, tt)
split-IsSlashless (String.◌∷◌ c s) = elim (Bool-cases (nat_eq (code c) b'/')) [
  | inl slash ↦ rw slash (refl, split-IsSlashless s)
  | inr other ↦ rw other (joined-IsSlashless c (split_slash s) other (split-IsSlashless s))
]

pub select-All {ℓ} :
    {A : Type 0} (P : A → Type ℓ) (test : A → Bool) (xs : List A)
    → All P xs
    → All P (select test xs)
select-All P test [] h = tt
select-All P test (x ∷ xs) h = elim (Bool-cases (test x)) [
  | inl kept ↦ rw kept (h.0, select-All P test xs h.1)
  | inr dropped ↦ rw dropped (select-All P test xs h.1)
]

pub starts_with-append : (p t : String) → starts_with p (p <> t) ≡ true
unfolding starts_with
starts_with-append String.[] t = refl
starts_with-append (String.◌∷◌ c p) t =
    rw (cons-append c p t) (ground (arith, starts_with-append p t, nat_eq_iff (code c) (code c)))

split-part : (p s : String) → IsSlashless p → split_slash (p <> "/" <> s) ≡ p ∷ split_slash s
unfolding split_slash
split-part String.[] s h = rw (nil-append ("/" <> s), one-append "/" s) refl
split-part (String.◌∷◌ c p) s h =
    let (other, plain) = IsSlashless-cons c p h in
    rw (cons-append c p ("/" <> s)) (ground (arith, other, split-part p s plain, one-append c p))

split-last : (p : String) → IsSlashless p → split_slash p ≡ p ∷ []
unfolding split_slash
split-last String.[] h = refl
split-last (String.◌∷◌ c p) h =
    let (other, plain) = IsSlashless-cons c p h in
    ground (arith, other, split-last p plain, one-append c p)

pub split-join :
    (p : String) (ps : List String)
    → All IsSlashless (p ∷ ps)
    → split_slash (join_slash (p ∷ ps)) ≡ p ∷ ps
unfolding join_slash
split-join p [] h = split-last p h.0
split-join p (q ∷ ps) h =
    split-part p (join_slash (q ∷ ps)) h.0 ∙ ap (λ (z : List String). p ∷ z) (split-join q ps h.1)

select-kept :
    (test : String → Bool) (xs : List String) → All (λ x. test x ≡ true) xs → select test xs ≡ xs
select-kept test [] h = refl
select-kept test (x ∷ xs) h = ground (arith, h.0, select-kept test xs h.1)

-- A prefix of the parts is the start of the path, up to a slash.
abbrev pub IsParent : List String → List String → Type 0
IsParent parts q =
    (x : String) × (ys : List String) × (rest : String) × (q ≡ x ∷ ys)
    × (join_slash parts ≡ join_slash q <> "/" <> rest)

map-All :
    {A B : Type 0} (P : A → Type 0) (Q : B → Type 0) (f : A → B)
    → ((a : A) → P a → Q (f a))
    → (xs : List A) → All P xs
    → All Q (map f xs)
map-All P Q f step [] h = tt
map-All P Q f step (x ∷ xs) h = (step x h.0, map-All P Q f step xs h.1)

longer-IsParent :
    (part next : String) (rest q : List String)
    → IsParent (next ∷ rest) q
    → IsParent (part ∷ next ∷ rest) (part ∷ q)
unfolding join_slash
longer-IsParent part next rest q (x, ys, r, is_cons, e) = (part, q, r, refl, long)
  where
    long : join_slash (part ∷ next ∷ rest) ≡ join_slash (part ∷ q) <> "/" <> r
    long =
        rw (e, is_cons)
          (rw
            (
              append_assoc part ("/" <> join_slash (x ∷ ys)) ("/" <> r),
              append_assoc "/" (join_slash (x ∷ ys)) ("/" <> r),
            )
            refl)

pub prefixes-IsParent : (parts : List String) → All (IsParent parts) (proper_prefixes parts)
unfolding proper_prefixes join_slash
prefixes-IsParent [] = tt
prefixes-IsParent (part ∷ []) = tt
prefixes-IsParent (part ∷ next ∷ rest) =
    append-All (IsParent (part ∷ next ∷ rest)) (map (λ q. part ∷ q) (proper_prefixes (next ∷ rest)))
      ((part ∷ []) ∷ [])
      (map-All (IsParent (next ∷ rest)) (IsParent (part ∷ next ∷ rest)) (λ q. part ∷ q)
        (longer-IsParent part next rest) (proper_prefixes (next ∷ rest))
        (prefixes-IsParent (next ∷ rest)))
      ((part, [], join_slash (next ∷ rest), refl, refl), tt)

-- Of a path with these parts, a parent is the start up to a slash.
pub parents-start :
    (p : String) (ps : List String)
    → All IsSlashless (p ∷ ps)
    → All (λ part. is_part part ≡ true) (p ∷ ps)
    → All
        (λ parent. (rest : String) × (join_slash (p ∷ ps) ≡ parent <> "/" <> rest))
        (parents_of (join_slash (p ∷ ps)))
unfolding parents_of posix_parts
parents-start p ps plain named = rw (split-join p ps plain) (
    rw (select-kept is_part (p ∷ ps) named) (
      map-All (IsParent (p ∷ ps))
        (λ parent. (rest : String) × (join_slash (p ∷ ps) ≡ parent <> "/" <> rest)) join_slash
        (λ q h. let (x, ys, rest, is_cons, e) = h in (rest, e)) (proper_prefixes (p ∷ ps))
        (prefixes-IsParent (p ∷ ps))))
