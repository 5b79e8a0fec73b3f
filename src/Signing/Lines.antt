-- ===== src/Signing/Lines.antt =====
-- Lines of a text, and texts that are made of lines.
use Prim.Native.Char.{code}
use text.Mathlib.TextLemmas.{cons-append, nil-append}
use lil_tweak.Prelude.{
  ◌≡◌, refl, sym, ◌∙◌, ap, true, false, String, List, [], ◌∷◌, nat_eq, all, if◌then◌else◌, arith,
  length,
}
use lil_tweak.Prelude.Text.{◌<>◌, codes, is_hex}
use lil_tweak.Prelude.Table.{All}
use lil_tweak.Prelude.Paths.{has_code}

-- A text without a line feed.
abbrev pub IsLine : String → Type 0
IsLine s = has_code 10 s ≡ false

-- The first line of a text, and what follows it.
first_line : String → String × String
first_line String.[] = ("", "")
first_line (String.◌∷◌ c s) =
    let rest = first_line s in if nat_eq (code c) 10 then ("", s) else (String.◌∷◌ c rest.0, rest.1)

first_line-append : (p s : String) → IsLine p → first_line (p <> "\n" <> s) ≡ (p, s)
unfolding first_line
first_line-append String.[] s h =
    rw (nil-append ("\n" <> s)) (rw (cons-append "\n" "" s) (rw (nil-append s) refl))
first_line-append (String.◌∷◌ c p) s h =
    rw (cons-append c p ("\n" <> s)) (ground (arith, h, first_line-append p s))

-- Two texts that are equal have equal first lines, and go on in the same way.
same_line :
    (p q s t : String) → IsLine p → IsLine q → p <> "\n" <> s ≡ q <> "\n" <> t → (p ≡ q) × (s ≡ t)
same_line p q s t plain plain' e =
    let pairs : ◌≡◌ {A = String × String} (p, s) (q, t) =
      sym (first_line-append p s plain) ∙ ap first_line e ∙ first_line-append q t plain' in
    (λ i. (pairs i).0, λ i. (pairs i).1)

-- `"\n".join(lines)`
unfoldable pub join_lines : List String → String
join_lines [] = ""
join_lines (line ∷ []) = line
join_lines (line ∷ next ∷ rest) = line <> "\n" <> join_lines (next ∷ rest)

-- Lists of as many lines that are joined to the same text are equal.
pub same_lines :
    (ps qs : List String)
    → length ps ≡ length qs
    → All IsLine ps
    → All IsLine qs
    → join_lines ps ≡ join_lines qs
    → ps ≡ qs
unfolding join_lines
same_lines [] [] n h k e = refl
same_lines [] (q ∷ qs) n h k e = ground (arith, n)
same_lines (p ∷ ps) [] n h k e = ground (arith, n)
same_lines (p ∷ []) (q ∷ []) n h k e = ap (λ (z : String). z ∷ []) e
same_lines (p ∷ []) (q ∷ q' ∷ qs) n h k e = ground (arith, n)
same_lines (p ∷ p' ∷ ps) (q ∷ []) n h k e = ground (arith, n)
same_lines (p ∷ p' ∷ ps) (q ∷ q' ∷ qs) n h k e =
    let (first, more) = same_line p q (join_lines (p' ∷ ps)) (join_lines (q' ∷ qs)) h.0 k.0 e in
    let rest = same_lines (p' ∷ ps) (q' ∷ qs) (ground (arith, n)) h.1 k.1 more in
    λ i. first i ∷ rest i

pub hex-IsLine : (s : String) → all is_hex (codes s) ≡ true → IsLine s
unfolding codes
hex-IsLine String.[] h = refl
hex-IsLine (String.◌∷◌ c s) h = ground (arith, h, hex-IsLine s)
