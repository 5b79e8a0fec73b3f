-- ===== src/Prelude/Paths.antt =====
-- `PurePosixPath` of a relative path: its parts, and the path that they make.
use Prim.Native.Char.{code}
use lil_tweak.Prelude.{
  ◌≡◌, refl, ℕ, Bool, true, false, map, ◌++◌, ◌&&◌, not, ◌||◌, String, List, [], ◌∷◌, select,
  nat_eq, if◌then◌else◌, ◌==◌, string_Eq,
}
use lil_tweak.Prelude.Text.{◌<>◌, is_blank}

-- A character joins the piece that follows it.
abbrev pub joined_to : String → List String → List String
joined_to c [] = c ∷ []
joined_to c (piece ∷ pieces) = (c <> piece) ∷ pieces

-- `s.split("/")`
unfoldable pub split_slash : String → List String
split_slash String.[] = "" ∷ []
split_slash (String.◌∷◌ c s) =
    let rest = split_slash s in
    if nat_eq (code c) b'/' then "" ∷ rest else joined_to (String.◌∷◌ c "") rest

-- Empty parts and single dots are dropped; double dots are kept.
abbrev pub is_part : String → Bool
is_part part = not (is_blank part || part == ".")

-- `PurePosixPath(s).parts`, for a path that does not begin with a slash.
unfoldable pub posix_parts : String → List String
unfolding split_slash
posix_parts s = select is_part (split_slash s)

-- `"/".join(parts)`
unfoldable pub join_slash : List String → String
join_slash [] = ""
join_slash (part ∷ []) = part
join_slash (part ∷ next ∷ rest) = part <> "/" <> join_slash (next ∷ rest)

-- `c in s`, for a character with this code.
abbrev pub has_code : ℕ → String → Bool
has_code n String.[] = false
has_code n (String.◌∷◌ c s) = nat_eq (code c) n || has_code n s

parts_of_path : posix_parts "a/./b//../c" ≡ "a" ∷ "b" ∷ ".." ∷ "c" ∷ []
unfolding posix_parts
parts_of_path = refl

-- `s.startswith(prefix)`
unfoldable pub starts_with : String → String → Bool
starts_with String.[] s = true
starts_with (String.◌∷◌ c p) String.[] = false
starts_with (String.◌∷◌ c p) (String.◌∷◌ d s) =
    let rest = starts_with p s in nat_eq (code c) (code d) && rest

-- The parents of a path without a slash at its start, the nearest first, the path `.` left out.
unfoldable pub proper_prefixes : List String → List (List String)
proper_prefixes [] = []
proper_prefixes (part ∷ []) = []
proper_prefixes (part ∷ next ∷ rest) =
    map (λ parts. part ∷ parts) (proper_prefixes (next ∷ rest)) ++ (part ∷ []) ∷ []

unfoldable pub parents_of : String → List String
unfolding posix_parts proper_prefixes join_slash
parents_of path = map join_slash (proper_prefixes (posix_parts path))
