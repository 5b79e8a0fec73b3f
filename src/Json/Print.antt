-- ===== src/Json/Print.antt =====
-- The text of `json.dumps(value, ensure_ascii=False, separators=(",", ":"))`, with and without
-- `sort_keys=True`.
use Prim.Native.Char.{code}
use Prim.Native.Nat.{Ordering}
use Prim.Native.String as S
use lil_tweak.Prelude.{
  ℕ, ◌≡◌, refl, zero, suc, ◌+◌, ◌/◌, ◌%◌, Bool, true, false, String, List, [], ◌∷◌, ltb, nat_eq,
  if◌then◌else◌, ◌==◌, string_Eq,
}
use lil_tweak.Prelude.Text.{◌<>◌}
use lil_tweak.Prelude.Sorting.{sort_by}
use lil_tweak.Json.{
  Json, null, bool, nat, neg, real, text, arr, obj, Items, nil, cons, Fields, end, field,
}

-- One hexadecimal digit; decimal digits are the first ten.
hex_digit : ℕ → String
hex_digit zero = "0"
hex_digit (suc zero) = "1"
hex_digit (suc (suc zero)) = "2"
hex_digit (suc (suc (suc zero))) = "3"
hex_digit (suc (suc (suc (suc zero)))) = "4"
hex_digit (suc (suc (suc (suc (suc zero))))) = "5"
hex_digit (suc (suc (suc (suc (suc (suc zero)))))) = "6"
hex_digit (suc (suc (suc (suc (suc (suc (suc zero))))))) = "7"
hex_digit (suc (suc (suc (suc (suc (suc (suc (suc zero)))))))) = "8"
hex_digit (suc (suc (suc (suc (suc (suc (suc (suc (suc zero))))))))) = "9"
hex_digit (suc (suc (suc (suc (suc (suc (suc (suc (suc (suc n)))))))))) =
    if nat_eq n 0
    then "a"
    else if nat_eq n 1
    then "b"
    else if nat_eq n 2
    then "c"
    else if nat_eq n 3
    then "d"
    else if nat_eq n 4
    then "e"
    else "f"

-- The decimal text of a number; the fuel bounds the rounds, and `n` rounds are enough.
decimal_rounds : ℕ → ℕ → String
unfolding hex_digit
decimal_rounds zero n = hex_digit n
decimal_rounds (suc fuel) n =
    let rest = decimal_rounds fuel (n / 10) in
    if ltb n 10 then hex_digit n else rest <> hex_digit (n % 10)

-- `str(n)`
unfoldable pub decimal : ℕ → String
unfolding decimal_rounds
decimal n = decimal_rounds n n

-- One character inside a JSON text.
escaped : ℕ → String → String
unfolding hex_digit
escaped c character =
    if nat_eq c 34
    then "\\\""
    else if nat_eq c 92
    then "\\\\"
    else if nat_eq c 10
    then "\\n"
    else if nat_eq c 13
    then "\\r"
    else if nat_eq c 9
    then "\\t"
    else if nat_eq c 8
    then "\\b"
    else if nat_eq c 12
    then "\\f"
    else if ltb c 32
    then "\\u00" <> hex_digit (c / 16) <> hex_digit (c % 16)
    else character

escaped_text : String → String
unfolding escaped
escaped_text String.[] = ""
escaped_text (String.◌∷◌ c s) = escaped (code c) (String.◌∷◌ c "") <> escaped_text s

unfoldable pub quoted : String → String
unfolding escaped_text
quoted s = "\"" <> escaped_text s <> "\""

abbrev key_before : String × String → String × String → Bool
key_before a b = elim (S.compare a.0 b.0) [ Ordering.lt ↦ true | _ ↦ false ]

joined : List (String × String) → String
unfolding quoted
joined [] = ""
joined ((k, v) ∷ []) = quoted k <> ":" <> v
joined ((k, v) ∷ p ∷ rest) = quoted k <> ":" <> v <> "," <> joined (p ∷ rest)

abbrev arranged : Bool → List (String × String) → List (String × String)
arranged true fields = sort_by key_before fields
arranged false fields = fields

abbrev comma : Items → String
comma nil = ""
comma (cons _ _) = ","

-- Floats that are not numbers have words of their own.
abbrev real_text : String → String
real_text r =
    if r == "nan"
    then "NaN"
    else if r == "inf"
    then "Infinity"
    else if r == "-inf"
    then "-Infinity"
    else r

unfoldable mutual
  unfolding quoted decimal joined sort_by

  -- The first argument is `sort_keys`.
  pub dumps : Bool → Json → String
  dumps sorted null = "null"
  dumps sorted (bool true) = "true"
  dumps sorted (bool false) = "false"
  dumps sorted (nat n) = decimal n
  dumps sorted (neg n) = "-" <> decimal (n + 1)
  dumps sorted (real r) = real_text r
  dumps sorted (text s) = quoted s
  dumps sorted (arr xs) = "[" <> dump_items sorted xs <> "]"
  dumps sorted (obj fs) = "{" <> joined (arranged sorted (dump_fields sorted fs)) <> "}"

  pub dump_items : Bool → Items → String
  dump_items sorted nil = ""
  dump_items sorted (cons x xs) = dumps sorted x <> comma xs <> dump_items sorted xs

  pub dump_fields : Bool → Fields → List (String × String)
  dump_fields sorted end = []
  dump_fields sorted (field k v fs) = (k, dumps sorted v) ∷ dump_fields sorted fs

printed :
    dumps true
      (obj (field "b" (arr (cons (nat 120) (cons (text "a\"\n") nil))) (field "a" (bool true) end)))
    ≡ "{\"a\":true,\"b\":[120,\"a\\\"\\n\"]}"
unfolding dumps
printed = refl
