-- ===== src/Archives/Safety/Names.antt =====
-- What `safe_name` promises of the path that it returns.
use lil_tweak.Prelude.{
  ◌≤◌, ◌≡◌, Bool, true, false, not, ◌||◌, String, List, [], ◌∷◌, any, length, leb, leb→le,
  string_Eq, inl, inr, arith, Bool-cases, ok, after_guard,
}
use lil_tweak.Prelude.Text.{◌<>◌, codes, is_blank}
use lil_tweak.Prelude.Table.{All}
use lil_tweak.Prelude.Paths.{posix_parts, is_part, parents_of, starts_with, split_slash}
use lil_tweak.Archives.Names.{
  ArchiveLimits, safe_name, as_posix, is_dots, is_bad_part, slashed, rstrip_slash, is_control,
  has_drive,
}
use lil_tweak.Archives.Paths.{IsSlashless, split-IsSlashless, select-All, parents-start}

pub any-false :
    {A : Type 0} (test : A → Bool) (xs : List A)
    → any test xs ≡ false
    → All (λ x. test x ≡ false) xs
any-false test [] h = tt
any-false test (x ∷ xs) h = elim (Bool-cases (test x)) [
  | inl holds ↦ ground (arith, h, holds)
  | inr fails ↦ (fails, any-false test xs (ground (arith, h, fails)))
]

-- `str.casefold` folds one character after another, and keeps the slash.
pub record IsFolding (casefold : String → String) : Type 0 where
  pub of_append : (a b : String) → casefold (a <> b) ≡ casefold a <> casefold b
  pub of_slash : casefold "/" ≡ "/"

-- The path is made of parts, none of them empty, `.`, `..`, blocked or too long, none with a slash.
pub record IsSafeName (casefold : String → String) (limits : ArchiveLimits) (path : String)
    : Type 0 where
  pub parts : List String
  pub is_path : path ≡ as_posix parts
  pub no_dots : All (λ part. is_dots part ≡ false) parts
  pub not_bad : All (λ part. is_bad_part casefold part ≡ false) parts
  pub slashless : All IsSlashless parts
  pub shallow : length parts ≤ limits.max_depth

pub safe_name-IsSafeName :
    (casefold : String → String) (limits : ArchiveLimits) (raw path : String) (is_directory : Bool)
    → safe_name casefold raw limits ≡ ok (path, is_directory)
    → IsSafeName casefold limits path
unfolding safe_name posix_parts
safe_name-IsSafeName casefold limits raw path is_directory h =
    let parts = posix_parts (rstrip_slash (slashed raw)) in
    let (_, h1) = after_guard (not (is_blank raw || any is_control (codes raw))) _ _ h in
    let (_, h2) =
      after_guard
        (not (starts_with "/" (slashed raw) || starts_with "\\\\" raw || has_drive (slashed raw))) _
        _ h1 in
    let (dots, h3) =
      after_guard (not (is_blank (rstrip_slash (slashed raw)) || any is_dots parts)) _ _ h2 in
    let (bad, h4) = after_guard (not (any (is_bad_part casefold) parts)) _ _ h3 in
    let (deep, h5) = after_guard (leb (length parts) limits.max_depth) _ _ h4 in
    record {
      parts = parts;
      is_path = ground (arith, h5);
      no_dots = any-false is_dots parts (ground (arith, dots));
      not_bad = any-false (is_bad_part casefold) parts (ground (arith, bad));
      slashless =
          select-All IsSlashless is_part (split_slash (rstrip_slash (slashed raw)))
            (split-IsSlashless (rstrip_slash (slashed raw)));
      shallow = leb→le (length parts) limits.max_depth deep;
    }

dots-is_part : (part : String) → is_dots part ≡ false → is_part part ≡ true
dots-is_part part h = ground (arith, h)

parts-IsPart :
    (parts : List String)
    → All (λ part. is_dots part ≡ false) parts
    → All (λ part. is_part part ≡ true) parts
parts-IsPart [] h = tt
parts-IsPart (part ∷ parts) h = (dots-is_part part h.0, parts-IsPart parts h.1)

parts-Start :
    (parts : List String)
    → All (λ part. is_dots part ≡ false) parts
    → All IsSlashless parts
    → All
        (λ parent. (rest : String) × (as_posix parts ≡ parent <> "/" <> rest))
        (parents_of (as_posix parts))
unfolding parents_of posix_parts
parts-Start [] h plain = tt
parts-Start (part ∷ parts) h plain = parents-start part parts plain (parts-IsPart (part ∷ parts) h)

pub parents-Start :
    (casefold : String → String) (limits : ArchiveLimits) (path : String)
    → IsSafeName casefold limits path
    → All (λ parent. (rest : String) × (path ≡ parent <> "/" <> rest)) (parents_of path)
unfolding parents_of posix_parts
parents-Start casefold limits path h = rw h.is_path (parts-Start h.parts h.no_dots h.slashless)
