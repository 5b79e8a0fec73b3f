-- ===== src/Json.antt =====
-- The values that Python's `json` reads and writes, as the stores keep them: event data, evidence,
-- approval proposals and judge feedback. An object has each key once.
pub mod Text
pub mod Print
pub mod Equality
use lil_tweak.Prelude.{
  ℕ, suc, Bool, true, false, not, ◌&&◌, ◌||◌, String, Option, some, none, nat_eq, if◌then◌else◌,
  ◌==◌, string_Eq,
}

-- `nat n` is the integer n and `neg n` the integer -(n + 1). A float is known by its `repr`.
mutual
  pub data Json : Type 0 where
    null : Json
    bool : Bool → Json
    nat : ℕ → Json
    neg : ℕ → Json
    real : String → Json
    text : String → Json
    arr : Items → Json
    obj : Fields → Json

  pub data Items : Type 0 where
    nil : Items
    cons : Json → Items → Items

  pub data Fields : Type 0 where
    end : Fields
    field : String → Json → Fields → Fields

-- `d.get(key)`
unfoldable pub get_field : String → Fields → Option Json
get_field k end = none
get_field k (field j v rest) = if j == k then some v else get_field k rest

-- `len(d)`
abbrev pub field_count : Fields → ℕ
field_count end = 0
field_count (field k v rest) = suc (field_count rest)

-- `value is True`
abbrev pub is_true : Option Json → Bool
is_true (some (bool b)) = b
is_true _ = false

-- `value == s`, for a text `s`
abbrev pub is_text : String → Option Json → Bool
is_text s (some (text t)) = t == s
is_text s _ = false

abbrev pub bool_eq : Bool → Bool → Bool
bool_eq true b = b
bool_eq false b = not b

-- Equality of floats by their `repr`: zeros are equal, and `nan` equals nothing.
unfoldable pub real_eq : String → String → Bool
real_eq a b =
    if a == "nan" || b == "nan"
    then false
    else (a == b) || ((a == "0.0" || a == "-0.0") && (b == "0.0" || b == "-0.0"))
