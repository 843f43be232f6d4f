-- ===== src/Base/Json.antt =====
-- `serde_json::Value` with the methods that the code calls. An `f64` stands for itself by its bits. serde_json
-- keeps an object's entries sorted by key; here they stand in any order, and what the code builds in the
-- order in which it builds it, so nothing may be read off the order of a built object.
use soothfast.Base.Chars.{Text, text_eq, text_eq→eq, text_eq_iff}
use soothfast.Base.Lists.{keep}
use soothfast.Base.Tests.{if◌then◌else◌, Bool-cases}
use Prim.Native.Nat.{ℕ}
use mathlib.Core.Path.{◌≡◌, refl, ap}
use mathlib.Core.Logic.{inl, inr}
use native.Mathlib.Omega.{arith}
use mathlib.Core.Bool.{Bool, true, false}
use mathlib.Core.List.{List, [], ◌∷◌, map}
use mathlib.Core.Option
use mathlib.Core.Option.{Option, none, some}

mutual
  pub data Value : Type 0 where
    null : Value
    bool : Bool → Value
    uint : ℕ → Value
    negint : ℕ → Value
    float : ℕ → Value
    str : Text → Value
    arr : Items → Value
    obj : Fields → Value

  pub data Items : Type 0 where
    nil : Items
    cons : Value → Items → Items

  pub data Fields : Type 0 where
    end : Fields
    field : Text → Value → Fields → Fields

unfoldable pub get_field : Text → Fields → Option Value
get_field k end = none
get_field k (field j v fs) = if text_eq j k then some v else get_field k fs

-- `v.get(k)`
unfoldable pub get : Text → Value → Option Value
unfolding get_field text_eq
get k (obj fs) = get_field k fs
get k _ = none

abbrev pub or_null : Option Value → Value
or_null none = null
or_null (some v) = v

-- `v[k]`
unfoldable pub index : Value → Text → Value
unfolding get
index v k = or_null (get k v)

unfoldable pub set_field : Text → Value → Fields → Fields
set_field k v end = field k v end
set_field k v (field j w fs) = if text_eq j k then field k v fs else field j w (set_field k v fs)

-- `v[k] = w` on an object or null. On any other value the assignment panics: where the code does not know that
-- it has an object, the model takes `assign` of JsonAssign, and this is for objects that the code has built.
unfoldable pub set_key : Value → Text → Value → Value
unfolding set_field text_eq
set_key (obj fs) k w = obj (set_field k w fs)
set_key v k w = obj (field k w end)

abbrev fields_of : List (Text × Value) → Fields
fields_of [] = end
fields_of ((k, v) ∷ es) = field k v (fields_of es)

-- An object of a `json!` literal.
abbrev pub object : List (Text × Value) → Value
object es = obj (fields_of es)

abbrev pub as_str : Value → Option Text
as_str (str s) = some s
as_str _ = none

abbrev pub as_u64 : Value → Option ℕ
as_u64 (uint n) = some n
as_u64 _ = none

abbrev pub as_bool : Value → Option Bool
as_bool (bool b) = some b
as_bool _ = none

abbrev pub items : Items → List Value
items nil = []
items (cons v vs) = v ∷ items vs

abbrev pub as_array : Value → Option (List Value)
as_array (arr vs) = some (items vs)
as_array _ = none

abbrev pub entries : Fields → List (Text × Value)
entries end = []
entries (field k v fs) = (k, v) ∷ entries fs

abbrev pub as_object : Value → Option (List (Text × Value))
as_object (obj fs) = some (entries fs)
as_object _ = none

abbrev pub is_null : Value → Bool
is_null null = true
is_null _ = false

abbrev pub items_of : List Value → Items
items_of [] = nil
items_of (v ∷ vs) = cons v (items_of vs)

-- `Value::Array(vs)`
abbrev pub array : List Value → Value
array vs = arr (items_of vs)

-- `json!(texts)`
abbrev pub strings : List Text → Value
strings ts = array (map str ts)

pub items-items_of : (vs : List Value) → items (items_of vs) ≡ vs
items-items_of [] = refl
items-items_of (v ∷ vs) = ap (λ ws. v ∷ ws) (items-items_of vs)

-- A change of `doc.get_mut(k)`, for a key that is there.
unfoldable pub update_field : Text → (Value → Value) → Fields → Fields
update_field k f end = end
update_field k f (field j v fs) =
    if text_eq j k then field j (f v) fs else field j v (update_field k f fs)

unfoldable pub update : Text → (Value → Value) → Value → Value
update k f (obj fs) = obj (update_field k f fs)
update k f v = v

abbrev keep_items : (Value → Bool) → Items → Items
keep_items p nil = nil
keep_items p (cons v vs) = if p v then cons v (keep_items p vs) else keep_items p vs

-- `retain` on an array, and on an object; any other value has no `as_array_mut` or `as_object_mut`.
abbrev pub retain_items : (Value → Bool) → Value → Value
retain_items p (arr vs) = arr (keep_items p vs)
retain_items p v = v

abbrev keep_fields : (Text → Value → Bool) → Fields → Fields
keep_fields p end = end
keep_fields p (field k v fs) = if p k v then field k v (keep_fields p fs) else keep_fields p fs

abbrev pub retain_fields : (Text → Value → Bool) → Value → Value
retain_fields p (obj fs) = obj (keep_fields p fs)
retain_fields p v = v

pub items-keep_items : (p : Value → Bool) (vs : Items) → items (keep_items p vs) ≡ keep p (items vs)
items-keep_items p nil = refl
items-keep_items p (cons v vs) = ground (arith, items-keep_items p vs)

pub get_field-set_field :
    (k j : Text) (v : Value) (fs : Fields)
    → get_field j (set_field k v fs) ≡ (if text_eq k j then some v else get_field j fs)
unfolding get_field set_field
get_field-set_field k j v end = refl
get_field-set_field k j v (field i w fs) = elim (Bool-cases (text_eq i k)) [
  | inl e ↦ let same : i ≡ k = text_eq→eq i k e in rw e (rw same (ground arith))
  | inr e ↦
      rw (e, get_field-set_field k j v fs)
        (ground (arith, e, text_eq_iff i j, text_eq_iff k j, text_eq_iff i k))
]

-- What an assignment changes.
pub get-set_key :
    (v : Value) (k j : Text) (w : Value)
    → get j (set_key v k w) ≡ (if text_eq k j then some w else get j v)
unfolding get set_key get_field
get-set_key (obj fs) k j w = get_field-set_field k j w fs
get-set_key null k j w = refl
get-set_key (bool b) k j w = refl
get-set_key (uint n) k j w = refl
get-set_key (negint n) k j w = refl
get-set_key (float n) k j w = refl
get-set_key (str s) k j w = refl
get-set_key (arr vs) k j w = refl

get_field-update_field :
    (k j : Text) (f : Value → Value) (fs : Fields)
    → get_field j (update_field k f fs)
      ≡ (if text_eq k j then Option.map f (get_field j fs) else get_field j fs)
unfolding get_field update_field
get_field-update_field k j f end = ground arith
get_field-update_field k j f (field i w fs) = elim (Bool-cases (text_eq i k)) [
  | inl e ↦ let same : i ≡ k = text_eq→eq i k e in rw e (rw same (ground arith))
  | inr e ↦
      rw (e, get_field-update_field k j f fs)
        (ground (arith, e, text_eq_iff i j, text_eq_iff k j, text_eq_iff i k))
]

pub get-update :
    (v : Value) (k j : Text) (f : Value → Value)
    → get j (update k f v) ≡ (if text_eq k j then Option.map f (get j v) else get j v)
unfolding get update
get-update (obj fs) k j f = get_field-update_field k j f fs
get-update null k j f = ground arith
get-update (bool b) k j f = ground arith
get-update (uint n) k j f = ground arith
get-update (negint n) k j f = ground arith
get-update (float n) k j f = ground arith
get-update (str s) k j f = ground arith
get-update (arr vs) k j f = ground arith
