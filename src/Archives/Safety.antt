-- ===== src/Archives/Safety.antt =====
-- What `inspect_zip` promises of the entries that it returns.
pub mod Names
mod Lists
use text.Mathlib.TextLemmas.{append_assoc}
use lil_tweak.Prelude.{
  ℕ, ◌+◌, ◌%◌, ◌≤◌, ◌≡◌, ◌≢◌, refl, sym, ap, ◌∙◌, Bool, true, false, not, ◌&&◌, ◌||◌, String,
  Option, some, none, List, [], ◌∷◌, ◌++◌, any, length, nat_eq, leb, leb→le, if◌then◌else◌, ◌==◌,
  string_Eq, inl, inr, ◌⊎◌, arith, eq_iff, Bool-cases, Option-cases, Result, ok, err, ◌>>=◌, ◌>>◌,
  guard, >>=-eq-ok, after_guard, any-append, beq_refl, length-append, length-snoc,
}
use lil_tweak.Prelude.Text.{◌<>◌}
use lil_tweak.Prelude.Table.{
  Table, get, put, All, append-All, imp-All, every-All, get-put, get-put_self, get-put_ne,
}
use lil_tweak.Prelude.Paths.{starts_with, parents_of}
use lil_tweak.Archives.Names.{ArchiveLimits, safe_name, ends_with_slash}
use lil_tweak.Archives.Inspection.{
  ArchiveEntry, ZipInfo, Inspection, checked_entry, admit_entry, validate_info, inspect_entry,
  inspect_entries, inspect_zip, is_file, is_bomb, file_kind, no_entries,
}
use lil_tweak.Archives.Paths.{starts_with-append}
use lil_tweak.Archives.Safety.Names.{
  IsSafeName, IsFolding, safe_name-IsSafeName, any-false, parents-Start,
}
use lil_tweak.Archives.Safety.Lists.{
  total_size, Pairwise, Pairwise-snoc, total_size-snoc, any-imp, none-any, get-any,
}

module _ (casefold : String → String) (limits : ArchiveLimits) where
  -- A file is no parent of the other entry, up to the case of letters.
  abbrev pub IsNoParent : ArchiveEntry → ArchiveEntry → Type 0
  IsNoParent a b =
      a.is_directory ≡ false
      → any (λ parent. casefold parent == casefold a.path) (parents_of b.path) ≡ false

  abbrev pub IsApart : ArchiveEntry → ArchiveEntry → Type 0
  IsApart a b = (casefold a.path ≢ casefold b.path) × IsNoParent a b × IsNoParent b a

  abbrev pub IsSafeEntry : ArchiveEntry → Type 0
  IsSafeEntry e = IsSafeName casefold limits e.path × (e.size ≤ limits.max_file_bytes)

  -- Names stay below the root and within the limits, and no two entries collide.
  pub record IsSafeArchive (entries : List ArchiveEntry) : Type 0 where
    pub few : length entries ≤ limits.max_entries
    pub small : total_size entries ≤ limits.max_total_bytes
    pub each : All IsSafeEntry entries
    pub apart : Pairwise IsApart entries

  abbrev IsKnown : List String → Table String Bool → ArchiveEntry → Type 0
  IsKnown seen types e =
      IsSafeEntry e
      × (any (λ k. k == casefold e.path) seen ≡ true)
      × (get (casefold e.path) types ≡ some e.is_directory)

  record IsInspected (st : Inspection) : Type 0 where
    known : All (IsKnown st.seen st.entry_types) st.entries
    apart : Pairwise IsApart st.entries
    summed : st.total ≡ total_size st.entries
    within : st.total ≤ limits.max_total_bytes

  -- The state after an entry that passes every check.
  abbrev admitted : Inspection → ArchiveEntry → Inspection
  admitted st e = record {
    entries = st.entries ++ e ∷ [];
    seen = st.seen ++ casefold e.path ∷ [];
    entry_types = put (casefold e.path) e.is_directory st.entry_types;
    total = st.total + e.size;
  }

  checked-entry :
      (path : String) (named : Bool) (info : ZipInfo) (entry : ArchiveEntry) (folded : String)
      → checked_entry casefold (path, named) info limits ≡ ok (entry, folded)
      → (path ≡ entry.path) × (entry.size ≤ limits.max_file_bytes) × (folded ≡ casefold entry.path)
  unfolding checked_entry
  checked-entry path named info entry folded h =
      let (_, h1) = after_guard (not (nat_eq (info.flag_bits % 2) 1)) _ _ h in
      let (_, h2) =
        after_guard
          (nat_eq (file_kind info) 0 || nat_eq (file_kind info) 8 || nat_eq (file_kind info) 4) _ _
          h1 in
      let (_, h3) =
        after_guard
          (not (
            (ends_with_slash info.filename || named || nat_eq (file_kind info) 4)
            && not (nat_eq info.file_size 0)))
          _ _ h2 in
      let (fits, h4) = after_guard (leb info.file_size limits.max_file_bytes) _ _ h3 in
      let (_, h5) = after_guard (not (is_bomb limits info)) _ _ h4 in
      let size : info.file_size ≡ entry.size = ground (arith, h5) in
      let same : path ≡ entry.path = ground (arith, h5) in
      (
        same,
        rw (← size) (leb→le info.file_size limits.max_file_bytes fits),
        ground (arith, h5, same),
      )

  validate-IsSafeEntry :
      (info : ZipInfo) (entry : ArchiveEntry) (folded : String)
      → validate_info casefold info limits ≡ ok (entry, folded)
      → IsSafeEntry entry × (folded ≡ casefold entry.path)
  unfolding validate_info
  validate-IsSafeEntry info entry folded h =
      let ((path, named), safe, later) = >>=-eq-ok (safe_name casefold info.filename limits) _ h in
      let (same, fits, is_folded) = checked-entry path named info entry folded later in
      (
        (rw same at (safe_name-IsSafeName casefold limits info.filename path named safe), fits),
        is_folded,
      )

  old-IsNoParent :
      (a e : ArchiveEntry) (types : Table String Bool)
      → get (casefold a.path) types ≡ some a.is_directory
      → any (λ parent. is_file (get (casefold parent) types)) (parents_of e.path) ≡ false
      → IsNoParent a e
  old-IsNoParent a e types found clear file =
      any-imp (λ parent. casefold parent == casefold a.path)
        (λ parent. is_file (get (casefold parent) types)) (parents_of e.path)
        (every-All _
          (λ parent same.
            rw ((eq_iff (casefold parent) (casefold a.path)).0 same) (ground (arith, found, file)))
          (parents_of e.path))
        clear

  folded-starts :
      (path parent rest folded : String)
      → IsFolding casefold
      → path ≡ parent <> "/" <> rest
      → casefold parent ≡ folded
      → starts_with (folded <> "/") (casefold path) ≡ true
  folded-starts path parent rest folded folds e same =
      rw
        (
          e,
          folds.of_append parent ("/" <> rest),
          folds.of_append "/" rest,
          folds.of_slash,
          same,
          ← append_assoc folded "/" (casefold rest),
        )
        (starts_with-append (folded <> "/") (casefold rest))

  new-IsNoParent :
      (a e : ArchiveEntry) (types : Table String Bool)
      → IsFolding casefold
      → IsSafeName casefold limits a.path
      → get (casefold a.path) types ≡ some a.is_directory
      → (e.is_directory || not (any (λ t. starts_with (casefold e.path <> "/") t.0) types)) ≡ true
      → IsNoParent e a
  new-IsNoParent a e types folds safe found clear file =
      none-any (λ parent. casefold parent == casefold e.path) (parents_of a.path)
        (imp-All (λ parent. (rest : String) × (a.path ≡ parent <> "/" <> rest))
          (λ parent. (casefold parent == casefold e.path) ≡ false)
          (λ parent (rest, start). elim (Bool-cases (casefold parent == casefold e.path)) [
            | inr other ↦ other
            | inl same ↦ ground (
              arith,
              clear,
              file,
              get-any (casefold a.path) a.is_directory (starts_with (casefold e.path <> "/")) types
                  found
                  (folded-starts a.path parent rest (casefold e.path) folds start
                    ((eq_iff (casefold parent) (casefold e.path)).0 same)),
            )
          ])
          (parents_of a.path) (parents-Start casefold limits a.path safe))

  seen-ne :
      (a e : ArchiveEntry) (seen : List String)
      → any (λ k. k == casefold a.path) seen ≡ true
      → any (λ k. k == casefold e.path) seen ≡ false
      → casefold a.path ≢ casefold e.path
  seen-ne a e seen old fresh same = ground (arith, rw same at old, fresh)

  -- What was known of an entry stays known beside a new one.
  keep-IsKnown :
      (a e : ArchiveEntry) (seen : List String) (types : Table String Bool)
      → any (λ k. k == casefold e.path) seen ≡ false
      → IsKnown seen types a
      → IsKnown (seen ++ casefold e.path ∷ []) (put (casefold e.path) e.is_directory types) a
  keep-IsKnown a e seen types fresh (safe, old, typed) =
      let ne = seen-ne a e seen old fresh in
      (
        safe,
        ground (arith, any-append (λ k. k == casefold a.path) seen (casefold e.path ∷ []), old),
        get-put_ne (casefold e.path) (casefold a.path) e.is_directory types (λ p. ne (sym p))
            ∙ typed,
      )

  new-IsKnown :
      (e : ArchiveEntry) (seen : List String) (types : Table String Bool)
      → IsSafeEntry e
      → IsKnown (seen ++ casefold e.path ∷ []) (put (casefold e.path) e.is_directory types) e
  new-IsKnown e seen types safe = (
    safe,
    ground (
      arith,
      any-append (λ k. k == casefold e.path) seen (casefold e.path ∷ []),
      beq_refl ⦃e = string_Eq⦄ (casefold e.path),
    ),
    get-put_self (casefold e.path) e.is_directory types,
  )

  admit-IsInspected :
      (st next : Inspection) (e : ArchiveEntry)
      → IsFolding casefold
      → IsInspected st
      → IsSafeEntry e
      → admit_entry casefold limits st (e, casefold e.path) ≡ ok next
      → IsInspected next × (length next.entries ≡ length st.entries + 1)
  unfolding admit_entry
  admit-IsInspected st next e folds inv safe h =
      let (fresh, h1) = after_guard (not (any (λ k. k == casefold e.path) st.seen)) _ _ h in
      let (clear, h2) =
        after_guard
          (not (any (λ parent. is_file (get (casefold parent) st.entry_types)) (parents_of e.path)))
          _ _ h1 in
      let (above, h3) =
        after_guard
          (e.is_directory
            || not (any (λ t. starts_with (casefold e.path <> "/") t.0) st.entry_types))
          _ _ h2 in
      let (fits, h4) = after_guard (leb (st.total + e.size) limits.max_total_bytes) _ _ h3 in
      let unseen : any (λ k. k == casefold e.path) st.seen ≡ false = ground (arith, fresh) in
      let free : any (λ parent. is_file (get (casefold parent) st.entry_types)) (parents_of e.path)
          ≡ false =
        ground (arith, clear) in
      let made : admitted st e ≡ next = ground (arith, h4) in
      (
        rw (← made) (record {
          known =
              append-All (IsKnown (admitted st e).seen (admitted st e).entry_types) st.entries
                (e ∷ [])
                (imp-All (IsKnown st.seen st.entry_types)
                  (IsKnown (admitted st e).seen (admitted st e).entry_types)
                  (λ a k. keep-IsKnown a e st.seen st.entry_types unseen k) st.entries inv.known)
                (new-IsKnown e st.seen st.entry_types safe, tt);
          apart = Pairwise-snoc IsApart st.entries e inv.apart (
              imp-All (IsKnown st.seen st.entry_types) (λ a. IsApart a e)
                (λ a k. (
                  seen-ne a e st.seen k.1 unseen,
                  old-IsNoParent a e st.entry_types k.2 free,
                  new-IsNoParent a e st.entry_types folds k.0.0 k.2 above,
                ))
                st.entries inv.known);
          summed = ap (λ (n : ℕ). n + e.size) inv.summed ∙ sym (total_size-snoc st.entries e);
          within = leb→le (st.total + e.size) limits.max_total_bytes fits;
        }),
        rw (← made) (omega (arith, length-append st.entries (e ∷ []))),
      )

  entries-IsInspected :
      (infos : List ZipInfo) (st final : Inspection)
      → IsFolding casefold
      → IsInspected st
      → inspect_entries casefold limits infos st ≡ ok final
      → IsInspected final × (length final.entries ≡ length st.entries + length infos)
  unfolding inspect_entries inspect_entry
  entries-IsInspected [] st final folds inv h =
      let same : st ≡ final = ground (arith, h) in (rw (← same) inv, rw (← same) (omega arith))
  entries-IsInspected (info ∷ infos) st final folds inv h =
      let (next, one, rest) = >>=-eq-ok (inspect_entry casefold limits info st) _ h in
      let ((e, folded), valid, admitted) = >>=-eq-ok (validate_info casefold info limits) _ one in
      let (safe, is_folded) = validate-IsSafeEntry info e folded valid in
      let (kept, counted) = admit-IsInspected st next e folds inv safe (rw is_folded at admitted) in
      let (ends, total) = entries-IsInspected infos next final folds kept rest in
      (ends, omega (arith, counted, total))

  -- An archive that `inspect_zip` accepts is safe to extract: it has at most `max_entries` entries of at most `max_total_bytes` bytes, and every entry's path is made of at most `max_depth` parts, none of them with a slash, empty, `.`, `..`, blocked or over 255 bytes; no two paths are equal up to the case of letters, and no file stands where another entry has a directory, in whatever order the entries come. The case folding is taken to fold character by character.
  pub inspected_archive-IsSafe :
      (opened : Option (List ZipInfo)) (entries : List ArchiveEntry)
      → IsFolding casefold
      → inspect_zip casefold opened limits ≡ ok entries
      → IsSafeArchive entries
  unfolding inspect_zip
  inspected_archive-IsSafe opened entries folds h =
      elim (Bool-cases (nat_eq limits.max_compression_ratio.numerator 0)) [
        | inl bad ↦ ground (arith, h, bad)
        | inr good ↦ elim (Option-cases opened) [
          | inl broken ↦ ground (arith, h, good, broken)
          | inr (infos, p) ↦
              let (few, h1) =
                after_guard (leb (length infos) limits.max_entries) "too_many_entries"
                  (inspect_entries casefold limits infos (no_entries casefold) >>= λ st.
                    ok st.entries)
                  {y = entries} (ground (arith, h, good, p)) in
              let (st, ran, last) =
                >>=-eq-ok (inspect_entries casefold limits infos (no_entries casefold)) _ h1 in
              let (inv, counted) =
                entries-IsInspected infos (no_entries casefold) st folds
                  (record { known = tt; apart = tt; summed = refl; within = omega arith }) ran in
              let same : st.entries ≡ entries = ground (arith, last) in
              rw (← same) (record {
                few = omega (arith, counted, leb→le (length infos) limits.max_entries few);
                small = rw (← inv.summed) inv.within;
                each =
                    imp-All (IsKnown st.seen st.entry_types) IsSafeEntry (λ a k. k.0) st.entries
                      inv.known;
                apart = inv.apart;
              })
        ]
      ]
