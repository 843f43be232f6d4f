-- ===== src/Dialect/Openapi/Same.antt =====
-- An OpenAPI document compared with itself.
use soothfast.Base.{
  ◌≡◌, refl, sym, Bool, true, false, List, [], ◌∷◌, ◌++◌, map, none, some, Text, codes,
  Option-cases, Bool-cases, inl, inr, &&_iff, all,
}
use soothfast.Base.Format.{concat}
use soothfast.Base.BTreeMap.{BTreeMap, get as map_get, insert, keys}
use soothfast.Base.BTreeSet.{from_list}
use soothfast.Base.Json.{Value, get_field, index, is_null, as_array, as_object}
use soothfast.Base.JsonKeyed.{keyed, index-keyed, get_field-keyed, value_eq_refl}
use soothfast.Compat.{sort, or_nil}
use soothfast.Compat.Walk.{request, response, fields_of}
use soothfast.Compat.Same.{fields_of-keyed}
use soothfast.Compat.Unchanged.{
  compare_same, flat_nothing, Keyed, Keyed-nil, insert-Keyed, extend-Keyed,
}
use soothfast.Dialect.Parts.{entry_keyed, members-keyed, as_object-keyed}
use soothfast.Dialect.Openapi.{
  first_schema, content_schema, body_schema, is_required, parameter_entry, parameters,
  required_change, compare_parameter, compare_parameters, compare_body, compare_content,
  compare_response, compare_responses, compare_operation, compare_key, add_methods, add_paths,
  operations, diff,
}

some-inj : {v w : Value} → some v ≡ some w → v ≡ w
some-inj h = cc

none-some : {v : Value} → none ≡ some v → ⊥
none-some h = cc

first_schema-keyed :
    (es : List (Text × Value)) (v : Value)
    → all entry_keyed es ≡ true
    → first_schema es ≡ some v
    → keyed v ≡ true
first_schema-keyed [] v h e = cc
first_schema-keyed ((k, c) ∷ es) v h e =
    let (here, rest) = (&&_iff (keyed c) (all entry_keyed es)).0 h in
    elim (Bool-cases (is_null (index c (codes "schema")))) [
      | inl q ↦ absurd (none-some (rw q at e))
      | inr q ↦ rw (sym (some-inj (rw q at e))) (index-keyed (codes "schema") c here)
    ]

content_schema-keyed :
    (holder v : Value) → keyed holder ≡ true → content_schema holder ≡ some v → keyed v ≡ true
unfolding content_schema
content_schema-keyed holder v h e =
    elim (Option-cases (as_object (index holder (codes "content")))) [
      | inl q ↦ absurd (none-some (rw (q, content_schema) at e))
      | inr (es, q) ↦
          first_schema-keyed es v
            (as_object-keyed (index holder (codes "content")) es
              (index-keyed (codes "content") holder h) q)
            (rw (q, content_schema) at e)
    ]

parameters-Keyed : (op : Value) → keyed op ≡ true → Keyed (parameters op)
unfolding parameters
parameters-Keyed op h =
    extend-Keyed [] (map parameter_entry (or_nil (as_array (index op (codes "parameters")))))
      (mapped _
        (members-keyed (index op (codes "parameters")) (index-keyed (codes "parameters") op h)))
      Keyed-nil
  where
    mapped :
        (vs : List Value) → all keyed vs ≡ true → all entry_keyed (map parameter_entry vs) ≡ true
    mapped [] k = refl
    mapped (v ∷ vs) k =
        let (here, rest) = (&&_iff (keyed v) (all keyed vs)).0 k in
        (&&_iff _ _).1 (here, mapped vs rest)

required_change_same : (place : Text) (b : Bool) → required_change place b b ≡ []
required_change_same place true = refl
required_change_same place false = refl

module _ (to_string : Value → Text) where
  compare_parameters_same :
      (place : Text) (op : Value) → keyed op ≡ true → compare_parameters to_string place op op ≡ []
  unfolding compare_parameters compare_parameter
  compare_parameters_same place op h =
      flat_nothing (compare_parameter to_string place (parameters op) (parameters op)) _ λ k.
        elim (Option-cases (map_get k (parameters op))) [
          | inl e ↦ rw (e, e, compare_parameter) refl
          | inr (v, e) ↦
              rw
                (
                  e,
                  e,
                  compare_parameter,
                  required_change_same _ (is_required v),
                  value_eq_refl _ (
                      index-keyed (codes "type") _
                        (index-keyed (codes "schema") v (parameters-Keyed op h k v e))),
                )
                refl
        ]

  module _ (doc : Value) (doc_keyed : keyed doc ≡ true) where
    compare_body_same :
        (place : Text) (op : Value)
        → keyed op ≡ true
        → compare_body to_string doc doc place op op ≡ []
    unfolding compare_body body_schema
    compare_body_same place op h = elim (Option-cases (body_schema op)) [
      | inl e ↦ rw (e, e, compare_body) refl
      | inr (v, e) ↦
          rw (e, e, compare_body)
            (compare_same to_string doc request doc_keyed [] (place ++ codes " requestBody") v (
              content_schema-keyed (index op (codes "requestBody")) v
                (index-keyed (codes "requestBody") op h) e))
    ]

    content_same :
        (place : Text) (v : Value)
        → keyed v ≡ true
        → compare_content to_string doc doc place (content_schema v) (content_schema v) ≡ []
    content_same place v h = elim (Option-cases (content_schema v)) [
      | inl e ↦ rw e refl
      | inr (s, e) ↦
          rw e (
            compare_same to_string doc response doc_keyed [] place s (content_schema-keyed v s h e))
    ]

    compare_responses_same :
        (place : Text) (op : Value)
        → keyed op ≡ true
        → compare_responses to_string doc doc place op op ≡ []
    unfolding compare_responses compare_response
    compare_responses_same place op h =
        let res = fields_of (index op (codes "responses")) in
        flat_nothing (compare_response to_string doc doc place res res) _ λ k.
          elim (Option-cases (get_field k res)) [
            | inl e ↦ rw (e, e, compare_response) refl
            | inr (v, e) ↦
                rw (e, e, compare_response)
                  (content_same _ v (
                    get_field-keyed k res v
                      (fields_of-keyed (index op (codes "responses"))
                        (index-keyed (codes "responses") op h))
                      e))
          ]

    compare_operation_same :
        (place : Text) (op : Value)
        → keyed op ≡ true
        → compare_operation to_string doc doc place op op ≡ []
    unfolding compare_operation
    compare_operation_same place op h =
        rw (compare_parameters_same place op h, compare_body_same place op h)
          (compare_responses_same place op h)

module _ (to_uppercase : Text → Text) where
  add_methods-Keyed :
      (path : Text) (out : BTreeMap Value) (ms : List (Text × Value))
      → all entry_keyed ms ≡ true
      → Keyed out
      → Keyed (add_methods to_uppercase path out ms)
  unfolding add_methods
  add_methods-Keyed path out [] h k = k
  add_methods-Keyed path out ((verb, op) ∷ ms) h k =
      let (here, rest) = (&&_iff (keyed op) (all entry_keyed ms)).0 h in
      add_methods-Keyed path (insert (concat (to_uppercase verb ∷ codes " " ∷ path ∷ [])) op out) ms
        rest (insert-Keyed (concat (to_uppercase verb ∷ codes " " ∷ path ∷ [])) op out here k)

  add_paths-Keyed :
      (out : BTreeMap Value) (ps : List (Text × Value))
      → all entry_keyed ps ≡ true
      → Keyed out
      → Keyed (add_paths to_uppercase out ps)
  unfolding add_paths
  add_paths-Keyed out [] h k = k
  add_paths-Keyed out ((path, item) ∷ ps) h k =
      let (here, rest) = (&&_iff (keyed item) (all entry_keyed ps)).0 h in
      elim (Option-cases (as_object item)) [
        | inl e ↦ rw (e, add_paths) (add_paths-Keyed out ps rest k)
        | inr (ms, e) ↦
            rw (e, add_paths)
              (add_paths-Keyed (add_methods to_uppercase path out ms) ps rest
                (add_methods-Keyed path out ms (as_object-keyed item ms here e) k))
      ]

  operations-Keyed : (doc : Value) → keyed doc ≡ true → Keyed (operations to_uppercase doc)
  unfolding operations
  operations-Keyed doc h = elim (Option-cases (as_object (index doc (codes "paths")))) [
    | inl e ↦ rw (e, operations) Keyed-nil
    | inr (ps, e) ↦
        rw (e, operations)
          (add_paths-Keyed [] ps
            (as_object-keyed (index doc (codes "paths")) ps (index-keyed (codes "paths") doc h) e)
            Keyed-nil)
  ]

  pub diff_same :
      (to_string : Value → Text) (doc : Value)
      → keyed doc ≡ true
      → diff to_uppercase to_string doc doc ≡ []
  unfolding diff sort compare_key
  diff_same to_string doc h =
      let ops = operations to_uppercase doc in
      rw
        (flat_nothing (compare_key to_string doc doc ops ops) (from_list (keys ops ++ keys ops))
          λ k. elim (Option-cases (map_get k ops)) [
            | inl e ↦ rw (e, e, compare_key) refl
            | inr (v, e) ↦
                rw (e, e, compare_key)
                  (compare_operation_same to_string doc h k v (operations-Keyed doc h k v e))
          ])
        refl
