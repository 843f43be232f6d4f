-- ===== src/Dialect/Compatible.antt =====
-- What the dialects have in common: a document is compatible with itself, and what it offers is kept.
use soothfast.Base.{
  ◌≡◌, refl, ap, ◌∙◌, fun_ext, Bool, true, ◌&&◌, List, [], ◌++◌, map, Text, codes, all,
  Option-cases, inl, inr,
}
use soothfast.Base.BTreeMap.{BTreeMap, get as map_get, keys}
use soothfast.Base.BTreeSet.{from_list}
use soothfast.Base.Json.{Value, index}
use soothfast.Base.JsonKeyed.{keyed}
use soothfast.Compat.{Change, is_compatible, flat, compare_key, compare_keys, sort}
use soothfast.Compat.Order.{is_compatible-sort}
use soothfast.Compat.Values.{
  entry_kept, is_compatible-append, is_compatible-flat, is_compatible-compare_keys,
}
use soothfast.Dialect.Openapi.{
  operations as openapi_operations, compare_key as openapi_compare_key,
  compare_operation as openapi_compare_operation, diff as openapi_diff,
}
use soothfast.Dialect.Openapi.Same.{diff_same as openapi_same}
use soothfast.Dialect.Asyncapi.{
  operations as asyncapi_operations, compare_operation as asyncapi_compare_operation,
  diff as asyncapi_diff,
}
use soothfast.Dialect.Asyncapi.Same.{diff_same as asyncapi_same}
use soothfast.Dialect.Graphql.{
  fields, compare_type, compare_root_field, compare_root, root_names, diff as graphql_diff,
}
use soothfast.Dialect.Graphql.Same.{diff_same as graphql_same}
use soothfast.Dialect.Mcp.{by_name, compare_tool, diff as mcp_diff}
use soothfast.Dialect.Mcp.Same.{diff_same as mcp_same}

module _ (to_uppercase : Text → Text) (to_string : Value → Text) where
  -- A document compared with itself gives no change at all, read in any of the four dialects, where no
  -- object in it has a key twice.
  pub diff_nothing :
      (doc : Value)
      → keyed doc ≡ true
      → (openapi_diff to_uppercase to_string doc doc ≡ [])
        × (asyncapi_diff to_string doc doc ≡ [])
        × (graphql_diff doc doc ≡ [])
        × (mcp_diff to_string doc doc ≡ [])
  diff_nothing doc h = (
    openapi_same to_uppercase to_string doc h,
    asyncapi_same to_string doc h,
    graphql_same doc,
    mcp_same to_string doc h,
  )

  -- The loop of the OpenAPI comparison does what `compare_keys` does.
  openapi_compare_key-eq :
      (old new : Value) (m n : BTreeMap Value) (key : Text)
      → openapi_compare_key to_string old new m n key
        ≡ compare_key m n (codes "operation") (openapi_compare_operation to_string old new) key
  unfolding openapi_compare_key compare_key
  openapi_compare_key-eq old new m n key = elim (Option-cases (map_get key m)) [
    | inl e ↦ elim (Option-cases (map_get key n)) [
      | inl f ↦ rw (e, f, openapi_compare_key, compare_key) refl
      | inr (w, f) ↦ rw (e, f, openapi_compare_key, compare_key) refl
    ]
    | inr (v, e) ↦ elim (Option-cases (map_get key n)) [
      | inl f ↦ rw (e, f, openapi_compare_key, compare_key) refl
      | inr (w, f) ↦ rw (e, f, openapi_compare_key, compare_key) refl
    ]
  ]

  openapi_diff-eq :
      (old new : Value)
      → openapi_diff to_uppercase to_string old new
        ≡ sort (
            compare_keys
              (openapi_operations to_uppercase old)
              (openapi_operations to_uppercase new)
              (codes "operation")
              (openapi_compare_operation to_string old new))
  unfolding openapi_diff compare_keys
  openapi_diff-eq old new =
      ap
        (λ f. sort (
          flat (
            map f (
              from_list (
                keys (openapi_operations to_uppercase old)
                ++ keys (openapi_operations to_uppercase new))))))
        (fun_ext (openapi_compare_key-eq old new _ _))

  -- Every entry that was there still is, and its own comparison is compatible.
  abbrev pub all_kept :
      BTreeMap Value → BTreeMap Value → Text → (Text → Value → Value → List Change) → Bool
  all_kept m n noun both = all (entry_kept m n noun both) (keys m)

  graphql_kept :
      (old new : Value)
      → is_compatible (graphql_diff old new) ≡ (
          all_kept
            (fields (index old (codes "types")))
            (fields (index new (codes "types")))
            (codes "type")
            compare_type
          && all
              (λ root.
                all_kept
                  (fields (index (index old (codes "roots")) root))
                  (fields (index (index new (codes "roots")) root))
                  (codes "field")
                  (compare_root_field root))
              root_names)
  unfolding graphql_diff compare_root
  graphql_kept old new =
      is_compatible-sort _
      ∙ is_compatible-append
          (compare_keys (fields (index old (codes "types"))) (fields (index new (codes "types")))
            (codes "type") compare_type)
          _
      ∙ rw
          (
            is_compatible-compare_keys (fields (index old (codes "types")))
                (fields (index new (codes "types"))) (codes "type") compare_type,
            is_compatible-flat (compare_root old new) root_names,
          )
          (ap
            (λ p.
              all_kept (fields (index old (codes "types"))) (fields (index new (codes "types")))
                (codes "type") compare_type
              && all p root_names)
            (fun_ext λ root.
              is_compatible-compare_keys (fields (index (index old (codes "roots")) root))
                (fields (index (index new (codes "roots")) root)) (codes "field")
                (compare_root_field root)))

  -- What a compatible diff comes to in each dialect.
  abbrev pub KeptExactly : Value → Value → Type 0
  KeptExactly old new =
      (is_compatible (openapi_diff to_uppercase to_string old new)
        ≡ all_kept (openapi_operations to_uppercase old) (openapi_operations to_uppercase new)
            (codes "operation") (openapi_compare_operation to_string old new))
      × (is_compatible (asyncapi_diff to_string old new)
          ≡ all_kept (asyncapi_operations old) (asyncapi_operations new) (codes "operation")
              (asyncapi_compare_operation to_string old new))
      × (is_compatible (mcp_diff to_string old new)
          ≡ all_kept (by_name old) (by_name new) (codes "tool") (compare_tool to_string))
      × (is_compatible (graphql_diff old new) ≡ (
          all_kept (fields (index old (codes "types"))) (fields (index new (codes "types")))
            (codes "type") compare_type
          && all
              (λ root.
                all_kept (fields (index (index old (codes "roots")) root))
                  (fields (index (index new (codes "roots")) root)) (codes "field")
                  (compare_root_field root))
              root_names))

  -- A diff is compatible exactly when nothing named that was there is gone and the comparison of each
  -- with what it has become is compatible: the operations of an OpenAPI and of an AsyncAPI document, the
  -- tools of a manifest, and the types and the fields of each root of a GraphQL graph. What is added
  -- never matters at this level.
  pub is_compatible-diff : (old new : Value) → KeptExactly old new
  unfolding openapi_diff asyncapi_diff mcp_diff graphql_diff compare_root
  is_compatible-diff old new = (
    ap is_compatible (openapi_diff-eq old new)
        ∙ is_compatible-sort _
        ∙ is_compatible-compare_keys (openapi_operations to_uppercase old)
            (openapi_operations to_uppercase new) (codes "operation")
            (openapi_compare_operation to_string old new),
    is_compatible-sort _
        ∙ is_compatible-compare_keys (asyncapi_operations old) (asyncapi_operations new)
            (codes "operation") (asyncapi_compare_operation to_string old new),
    is_compatible-sort _
        ∙ is_compatible-compare_keys (by_name old) (by_name new) (codes "tool")
            (compare_tool to_string),
    graphql_kept old new,
  )
