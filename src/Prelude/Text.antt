-- ===== src/Prelude/Text.antt =====
-- The text operations of Python that the sources call: UTF-8 length, code points, `strip`, and the
-- character classes of their regular expressions.
use Prim.Native.Nat.{ℕ}
use Prim.Native.Char.{code}
use Prim.Native.String.{String, len, ◌++◌}
use mathlib.Core.Bool.{Bool, ◌&&◌, ◌||◌}
use mathlib.Core.List.{List, [], ◌∷◌}
use lil_tweak.Prelude.Tests.{nat_eq, between, if◌then◌else◌}
use lil_tweak.Prelude.Lists.{length, all}
use lil_tweak.Prelude.Classes.{◌==◌, string_Eq}

-- `len(s.encode("utf-8"))`
abbrev pub utf8_len : String → ℕ
utf8_len s = len s

infixr 65 ◌<>◌
abbrev pub ◌<>◌ : String → String → String
s <> t = s ++ t

-- The code points of a text; `len(s)` of Python is the length of this list.
unfoldable pub codes : String → List ℕ
codes String.[] = []
codes (String.◌∷◌ c s) = code c ∷ codes s

-- `not s`, for a text `s`.
abbrev pub is_blank : String → Bool
is_blank s = s == ""

-- `str.isspace` of one code point.
unfoldable pub is_space : ℕ → Bool
is_space c =
    between 9 13 c
    || between 28 32 c
    || nat_eq c 133
    || nat_eq c 160
    || nat_eq c 5760
    || between 8192 8202 c
    || between 8232 8233 c
    || nat_eq c 8239
    || nat_eq c 8287
    || nat_eq c 12288

unfoldable pub lstrip : String → String
unfolding is_space
lstrip String.[] = ""
lstrip (String.◌∷◌ c s) = let rest = lstrip s in if is_space (code c) then rest else String.◌∷◌ c s

unfoldable pub rstrip : String → String
unfolding is_space
rstrip String.[] = ""
rstrip (String.◌∷◌ c s) =
    let rest = rstrip s in if is_blank rest && is_space (code c) then "" else String.◌∷◌ c rest

-- `s.strip()`
unfoldable pub strip : String → String
unfolding lstrip rstrip
strip s = lstrip (rstrip s)

abbrev pub is_digit : ℕ → Bool
is_digit c = between b'0' b'9' c

abbrev pub is_lower : ℕ → Bool
is_lower c = between b'a' b'z' c

abbrev pub is_upper : ℕ → Bool
is_upper c = between b'A' b'Z' c

-- `[0-9a-f]`
abbrev pub is_hex : ℕ → Bool
is_hex c = is_digit c || between b'a' b'f' c

-- `[0-9a-f]{n}`, matched whole
unfoldable pub is_hex_text : ℕ → String → Bool
unfolding codes
is_hex_text n s = nat_eq (length (codes s)) n && all is_hex (codes s)
