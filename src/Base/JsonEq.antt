-- ===== src/Base/JsonEq.antt =====
-- `==` of JSON values. Objects are equal as maps: with as many fields, and each one of them in the other.
use soothfast.Base.Chars.{text_eq}
use soothfast.Base.Tests.{◌==◌}
use soothfast.Base.Json.{
  Value, null, bool, uint, negint, float, str, arr, obj, Items, nil, cons, Fields, end, field,
  get_field,
}
use Prim.Native.Nat.{ℕ, suc, ◌^◌}
use mathlib.Core.Bool.{Bool, true, false, not, ◌&&◌, ◌||◌}
use mathlib.Core.Option.{none, some}

abbrev bool_eq : Bool → Bool → Bool
bool_eq true b = b
bool_eq false b = not b

-- `==` of two numbers by their bits: none is NaN, and the two zeros are equal.
abbrev is_zero : ℕ → Bool
is_zero n = n == 0 || n == 2 ^ 63

abbrev float_eq : ℕ → ℕ → Bool
float_eq a b = a == b || (is_zero a && is_zero b)

abbrev pub fields_length : Fields → ℕ
fields_length end = 0
fields_length (field k v fs) = suc (fields_length fs)

unfoldable mutual
  unfolding get_field text_eq

  pub value_eq : Value → Value → Bool
  value_eq null null = true
  value_eq (bool a) (bool b) = bool_eq a b
  value_eq (uint a) (uint b) = a == b
  value_eq (negint a) (negint b) = a == b
  value_eq (float a) (float b) = float_eq a b
  value_eq (str a) (str b) = text_eq a b
  value_eq (arr a) (arr b) = items_eq a b
  value_eq (obj a) (obj b) = (fields_length a == fields_length b) && fields_in a b
  value_eq _ _ = false

  pub items_eq : Items → Items → Bool
  items_eq nil nil = true
  items_eq (cons v a) (cons w b) = value_eq v w && items_eq a b
  items_eq _ _ = false

  pub fields_in : Fields → Fields → Bool
  fields_in end b = true
  fields_in (field k v a) b =
      (elim (get_field k b) [ none ↦ false | some w ↦ value_eq v w ]) && fields_in a b
