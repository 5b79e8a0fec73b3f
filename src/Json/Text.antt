-- ===== src/Json/Text.antt =====
-- The size of `json.dumps(value, ensure_ascii=False, separators=(",", ":"))` in UTF-8, and the values
-- that it refuses under `allow_nan=False`.
use Prim.Native.Char.{code}
use lil_tweak.Prelude.{
  ℕ, zero, suc, ◌+◌, ◌/◌, Bool, true, ◌&&◌, ◌||◌, not, String, ltb, nat_eq, if◌then◌else◌, ◌==◌,
  string_Eq,
}
use lil_tweak.Prelude.Text.{utf8_len}
use lil_tweak.Json.{
  Json, null, bool, nat, neg, real, text, arr, obj, Items, nil, cons, Fields, end, field,
}

-- Decimal digits; the fuel bounds the rounds, and `n + 1` rounds are enough.
digits : ℕ → ℕ → ℕ
digits zero n = 1
digits (suc fuel) n = let rest = digits fuel (n / 10) in if ltb n 10 then 1 else rest + 1

abbrev digit_count : ℕ → ℕ
digit_count n = digits n n

-- Bytes that escaping adds: `\"` and `\\` and the short escapes one more, other controls five more.
escape_bytes : ℕ → ℕ
escape_bytes c =
    if nat_eq c 34
      || nat_eq c 92
      || nat_eq c 8
      || nat_eq c 9
      || nat_eq c 10
      || nat_eq c 12
      || nat_eq c 13
    then 1
    else if ltb c 32
    then 5
    else 0

escapes : String → ℕ
escapes String.[] = 0
escapes (String.◌∷◌ c s) = escape_bytes (code c) + escapes s

string_bytes : String → ℕ
string_bytes s = utf8_len s + escapes s + 2

abbrev item_comma : Items → ℕ
item_comma nil = 0
item_comma (cons _ _) = 1

abbrev field_comma : Fields → ℕ
field_comma end = 0
field_comma (field _ _ _) = 1

unfoldable mutual
  unfolding string_bytes escapes escape_bytes digits

  pub json_bytes : Json → ℕ
  json_bytes null = 4
  json_bytes (bool b) = if b then 4 else 5
  json_bytes (nat n) = digit_count n
  json_bytes (neg n) = digit_count (n + 1) + 1
  json_bytes (real r) = utf8_len r
  json_bytes (text s) = string_bytes s
  json_bytes (arr xs) = items_bytes xs + 2
  json_bytes (obj fs) = fields_bytes fs + 2

  pub items_bytes : Items → ℕ
  items_bytes nil = 0
  items_bytes (cons x xs) = json_bytes x + item_comma xs + items_bytes xs

  pub fields_bytes : Fields → ℕ
  fields_bytes end = 0
  fields_bytes (field k v fs) = string_bytes k + 1 + json_bytes v + field_comma fs + fields_bytes fs

-- Floats that JSON has no text for.
abbrev is_infinite : String → Bool
is_infinite r = r == "nan" || r == "inf" || r == "-inf"

unfoldable mutual
  pub is_dumpable : Json → Bool
  is_dumpable null = true
  is_dumpable (bool b) = true
  is_dumpable (nat n) = true
  is_dumpable (neg n) = true
  is_dumpable (real r) = not (is_infinite r)
  is_dumpable (text s) = true
  is_dumpable (arr xs) = are_items_dumpable xs
  is_dumpable (obj fs) = are_fields_dumpable fs

  pub are_items_dumpable : Items → Bool
  are_items_dumpable nil = true
  are_items_dumpable (cons x xs) = is_dumpable x && are_items_dumpable xs

  pub are_fields_dumpable : Fields → Bool
  are_fields_dumpable end = true
  are_fields_dumpable (field k v fs) = is_dumpable v && are_fields_dumpable fs
