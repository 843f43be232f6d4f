-- ===== src/Dialect/Graphql/Same.antt =====
-- A graph of types compared with itself.
use soothfast.Base.{
  ◌≡◌, refl, [], ◌++◌, Text, codes, text_eq, text_eq_iff, Option-cases, Bool-cases, inl, inr, ◌&&◌,
}
use soothfast.Base.Parse.{is_empty}
use soothfast.Base.BTreeMap.{BTreeMap, get as map_get, keys}
use soothfast.Base.BTreeSet.{from_list}
use soothfast.Base.Json.{Value, index}
use soothfast.Compat.{sort}
use soothfast.Compat.Walk.{Direction, request, response}
use soothfast.Compat.Same.{difference_same}
use soothfast.Compat.Unchanged.{compare_keys_same, flat_nothing}
use soothfast.Dialect.Graphql.{
  fields, kind, type_of, compare_types, compare_field, compare_named_field, compare_field_set,
  compare_arguments, enum_values, compare_enum_values, fields_direction, compare_type,
  compare_root_field, compare_root, root_names, diff,
}

compare_field_same : (place : Text) (v : Value) (dir : Direction) → compare_field place v v dir ≡ []
unfolding compare_field compare_types
compare_field_same place v dir = rw ((text_eq_iff (type_of v) (type_of v)).1 refl) refl

compare_field_set_same :
    (place : Text) (m : BTreeMap Value) (dir : Direction) → compare_field_set place m m dir ≡ []
unfolding compare_field_set compare_named_field
compare_field_set_same place m dir =
    flat_nothing (compare_named_field place m m dir) (from_list (keys m ++ keys m)) λ k.
      elim (Option-cases (map_get k m)) [
        | inl e ↦ rw (e, e, compare_named_field) refl
        | inr (v, e) ↦ rw (e, e, compare_named_field) (compare_field_same _ v dir)
      ]

compare_arguments_same : (place : Text) (v : Value) → compare_arguments place v v ≡ []
unfolding compare_arguments
compare_arguments_same place v =
    elim (Bool-cases
      (is_empty (fields (index v (codes "args"))) && is_empty (fields (index v (codes "args"))))) [
        | inl e ↦ rw e refl
        | inr e ↦
            rw (e, compare_field_set_same place (fields (index v (codes "args"))) request) refl
      ]

compare_type_same : (place : Text) (v : Value) → compare_type place v v ≡ []
unfolding compare_type compare_enum_values
compare_type_same place v = elim (Bool-cases (text_eq (kind v) (codes "enum"))) [
  | inl e ↦ rw ((text_eq_iff (kind v) (kind v)).1 refl, e, difference_same (enum_values v)) refl
  | inr e ↦ elim (Bool-cases (text_eq (kind v) (codes "scalar"))) [
    | inl f ↦ rw ((text_eq_iff (kind v) (kind v)).1 refl, e, f) refl
    | inr f ↦
        rw ((text_eq_iff (kind v) (kind v)).1 refl, e, f)
          (compare_field_set_same place (fields (index v (codes "fields")))
            (fields_direction (kind v)))
  ]
]

compare_root_field_same : (root name : Text) (v : Value) → compare_root_field root name v v ≡ []
unfolding compare_root_field
compare_root_field_same root name v =
    rw (compare_field_same _ v response, compare_root_field) (compare_arguments_same _ v)

compare_root_same : (doc : Value) (root : Text) → compare_root doc doc root ≡ []
unfolding compare_root
compare_root_same doc root =
    compare_keys_same _ (codes "field") (compare_root_field root)
      (λ k v e. compare_root_field_same root k v)

pub diff_same : (doc : Value) → diff doc doc ≡ []
unfolding diff sort
diff_same doc =
    rw
      (
        compare_keys_same (fields (index doc (codes "types"))) (codes "type") compare_type
            (λ k v e. compare_type_same k v),
        flat_nothing (compare_root doc doc) root_names (compare_root_same doc),
      )
      refl
