-- ===== src/Json/Equality.antt =====
-- `_json_type_equal` of store.py: equality of JSON values that tells `True` from 1 and 1 from 1.0.
use lil_tweak.Prelude.{Bool, true, false, ◌&&◌, some, none, nat_eq, ◌==◌, string_Eq}
use lil_tweak.Json.{
  Json, null, bool, nat, neg, real, text, arr, obj, Items, nil, cons, Fields, end, field, get_field,
  field_count, bool_eq, real_eq,
}

unfoldable mutual
  pub json_type_equal : Json → Json → Bool
  json_type_equal null null = true
  json_type_equal (bool a) (bool b) = bool_eq a b
  json_type_equal (nat a) (nat b) = nat_eq a b
  json_type_equal (neg a) (neg b) = nat_eq a b
  json_type_equal (real a) (real b) = real_eq a b
  json_type_equal (text a) (text b) = a == b
  json_type_equal (arr a) (arr b) = items_equal a b
  json_type_equal (obj a) (obj b) = nat_eq (field_count a) (field_count b) && fields_within a b
  json_type_equal _ _ = false

  pub items_equal : Items → Items → Bool
  items_equal nil nil = true
  items_equal (cons x xs) (cons y ys) = json_type_equal x y && items_equal xs ys
  items_equal _ _ = false

  -- Every key of the left is one of the right, with an equal value.
  pub fields_within : Fields → Fields → Bool
  fields_within end right = true
  fields_within (field k v rest) right =
      elim (get_field k right) [ none ↦ false | some w ↦ json_type_equal v w ]
      && fields_within rest right

-- The two dictionaries have the same keys, and equal values there.
unfoldable pub fields_equal : Fields → Fields → Bool
unfolding json_type_equal items_equal fields_within
fields_equal a b = nat_eq (field_count a) (field_count b) && fields_within a b
