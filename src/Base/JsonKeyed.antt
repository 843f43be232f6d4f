-- ===== src/Base/JsonKeyed.antt =====
-- JSON values in which no object has a key twice, which is what serde_json reads and builds: equality is
-- reflexive on them, and their parts are such values again.
use soothfast.Base.Chars.{Text, text_eq, text_eq→eq, text_eq_iff}
use soothfast.Base.Tests.{Bool-cases, Option-cases, is_some, &&_iff, ==_iff}
use soothfast.Base.Lists.{all}
use soothfast.Base.Json.{
  Value, null, bool, uint, negint, float, str, arr, obj, Items, nil, cons, Fields, end, field,
  get_field, get, index, items, entries,
}
use soothfast.Base.JsonEq.{value_eq, items_eq, fields_in}
use mathlib.Core.Path.{◌≡◌, refl, sym}
use mathlib.Core.Logic.{inl, inr}
use mathlib.Core.Bool.{Bool, true, false, not, ◌&&◌}
use mathlib.Core.Option.{some}
use native.Mathlib.Omega.{arith}

unfoldable mutual
  unfolding get_field text_eq

  pub keyed : Value → Bool
  keyed (arr vs) = keyed_items vs
  keyed (obj fs) = keyed_fields fs
  keyed v = true

  pub keyed_items : Items → Bool
  keyed_items nil = true
  keyed_items (cons v vs) = keyed v && keyed_items vs

  pub keyed_fields : Fields → Bool
  keyed_fields end = true
  keyed_fields (field k v fs) = not (is_some (get_field k fs)) && (keyed v && keyed_fields fs)

-- Every field of the one is a field of the other.
abbrev Sub : Fields → Fields → Type 0
Sub a b = (k : Text) (v : Value) → get_field k a ≡ some v → get_field k b ≡ some v

Sub-field :
    (k : Text) (v : Value) (a b : Fields)
    → is_some (get_field k a) ≡ false
    → Sub (field k v a) b
    → Sub a b
unfolding get_field
Sub-field k v a b n s j w h = elim (Bool-cases (text_eq k j)) [
  | inl e ↦ let q : k ≡ j = text_eq→eq k j e in absurd (present a j w h (rw (sym q) n))
  | inr e ↦ s j w (rw (e, get_field) h)
]
  where
    present :
        (a : Fields) (j : Text) (w : Value)
        → get_field j a ≡ some w
        → is_some (get_field j a) ≡ false
        → ⊥
    present a j w h n = ground (arith, h, n)

pub get_field-here : (k : Text) (v : Value) (fs : Fields) → get_field k (field k v fs) ≡ some v
unfolding get_field
get_field-here k v fs = rw ((text_eq_iff k k).1 refl) refl

negated : (b : Bool) → not b ≡ true → b ≡ false
negated b h = ground (arith, h)

mutual
  unfolding value_eq items_eq fields_in keyed keyed_items keyed_fields get_field

  pub value_eq_refl : (v : Value) → keyed v ≡ true → value_eq v v ≡ true
  value_eq_refl null h = refl
  value_eq_refl (bool true) h = refl
  value_eq_refl (bool false) h = refl
  value_eq_refl (uint n) h = ground arith
  value_eq_refl (negint n) h = ground arith
  value_eq_refl (float n) h = ground arith
  value_eq_refl (str s) h = (text_eq_iff s s).1 refl
  value_eq_refl (arr vs) h = items_eq_refl vs h
  value_eq_refl (obj fs) h =
      (&&_iff _ _).1 ((==_iff _ _).1 refl, fields_in_refl fs fs h (λ k v e. e))

  items_eq_refl : (vs : Items) → keyed_items vs ≡ true → items_eq vs vs ≡ true
  items_eq_refl nil h = refl
  items_eq_refl (cons v vs) h =
      let (a, b) = (&&_iff (keyed v) (keyed_items vs)).0 h in
      (&&_iff _ _).1 (value_eq_refl v a, items_eq_refl vs b)

  fields_in_refl : (a b : Fields) → keyed_fields a ≡ true → Sub a b → fields_in a b ≡ true
  fields_in_refl end b h s = refl
  fields_in_refl (field k v a) b h s =
      let (distinct, both) =
        (&&_iff (not (is_some (get_field k a))) (keyed v && keyed_fields a)).0 h in
      let (here, rest) = (&&_iff (keyed v) (keyed_fields a)).0 both in
      rw (s k v (get_field-here k v a), fields_in)
        ((&&_iff _ _).1 (
          value_eq_refl v here,
          fields_in_refl a b rest (Sub-field k v a b (negated _ distinct) s),
        ))

some-inj : {v w : Value} → some v ≡ some w → v ≡ w
some-inj h = cc

module _ (k : Text) where
  pub get_field-keyed :
      (fs : Fields) (v : Value) → keyed_fields fs ≡ true → get_field k fs ≡ some v → keyed v ≡ true
  unfolding get_field keyed
  get_field-keyed end v h e = cc
  get_field-keyed (field j w fs) v h e =
      let (here, rest) = (&&_iff (keyed w) (keyed_fields fs)).0 ((&&_iff _ _).0 h).1 in
      elim (Bool-cases (text_eq j k)) [
        | inl q ↦ let same : w ≡ v = some-inj (rw q at e) in rw (sym same) here
        | inr q ↦ get_field-keyed fs v rest (rw (q, get_field) at e)
      ]

  pub get-keyed : (w v : Value) → keyed w ≡ true → get k w ≡ some v → keyed v ≡ true
  unfolding get keyed
  get-keyed (obj fs) v h e = get_field-keyed fs v h e
  get-keyed null v h e = cc
  get-keyed (bool b) v h e = cc
  get-keyed (uint n) v h e = cc
  get-keyed (negint n) v h e = cc
  get-keyed (float n) v h e = cc
  get-keyed (str s) v h e = cc
  get-keyed (arr vs) v h e = cc

  pub index-keyed : (w : Value) → keyed w ≡ true → keyed (index w k) ≡ true
  unfolding index keyed
  index-keyed w h = elim (Option-cases (get k w)) [
    | inl e ↦ rw (e, index) refl
    | inr (v, e) ↦ rw (e, index) (get-keyed w v h e)
  ]

pub items-keyed : (vs : Items) → keyed_items vs ≡ true → all keyed (items vs) ≡ true
unfolding keyed
items-keyed nil h = refl
items-keyed (cons v vs) h =
    let (here, rest) = (&&_iff (keyed v) (keyed_items vs)).0 h in
    (&&_iff _ _).1 (here, items-keyed vs rest)

pub entries-keyed :
    (fs : Fields)
    → keyed_fields fs ≡ true
    → all (λ (e : Text × Value). keyed e.1) (entries fs) ≡ true
unfolding keyed
entries-keyed end h = refl
entries-keyed (field k v fs) h =
    let (here, rest) = (&&_iff (keyed v) (keyed_fields fs)).0 ((&&_iff _ _).0 h).1 in
    (&&_iff _ _).1 (here, entries-keyed fs rest)
