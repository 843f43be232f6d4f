-- ===== src/Dialect/Tests.antt =====
-- Runs of the dialects' comparisons, and each theorem about them at a concrete input.
use soothfast.Base.{◌≡◌, refl, true, false, [], ◌∷◌, Text, codes, text_eq, mem_text}
use soothfast.Base.Json.{Value, index, get, get_field, str, object, array, strings}
use soothfast.Base.JsonKeyed.{keyed}
use soothfast.Compat.{
  is_compatible, sort, insert_change, change_cmp, compare_keys, compare_key, compare_enum, deref,
  difference, render, required_set, values,
}
use soothfast.Compat.Walk.{
  request, response, walk, walk_inside, reference, visit_property, visit_properties, requirement,
  mem_pair, added_severity,
}
use soothfast.Compat.Compare.{compare}
use soothfast.Compat.Size.{size, texts}
use soothfast.Base.BTreeSet.{from_list}
use soothfast.Base.BTreeMap.{insert, extend, get as map_get}
use soothfast.Base.Order.{text_cmp}
use soothfast.Base.JsonEq.{value_eq}
use soothfast.Dialect.Compatible.{KeptExactly, diff_nothing, is_compatible-diff}
use soothfast.Dialect.Graphql.{compare_types}
use soothfast.Dialect.Graphql.TypeRef.{TypeRef, keeps, plain, named, list_of, print}
use soothfast.Dialect.Graphql.Nullability.{with_mark, is_compatible-compare_types, moved_mark}
use soothfast.Dialect.Graphql.{diff as graphql_diff}
use soothfast.Dialect.Asyncapi.{diff as asyncapi_diff}
use soothfast.Dialect.Openapi.{diff as openapi_diff}
use soothfast.Dialect.Mcp.{by_name, compare_tool, diff as mcp_diff}

abbrev same : Text → Text
same t = t

abbrev shown : Value → Text
shown v = codes "?"

-- `[Int]` and `[Int!]`
abbrev plain_list : TypeRef
plain_list = list_of (named (codes "Int") false) false

abbrev strict_list : TypeRef
strict_list = list_of (named (codes "Int") true) false

abbrev id_field : Value
id_field = object ((codes "id", object ((codes "type", str (codes "string")) ∷ [])) ∷ [])

-- A schema with one property, which may be left out or not.
abbrev item : Value
item = object ((codes "type", str (codes "object")) ∷ (codes "properties", id_field) ∷ [])

abbrev strict_item : Value
strict_item = object (
    (codes "type", str (codes "object"))
    ∷ (codes "properties", id_field)
    ∷ (codes "required", strings (codes "id" ∷ []))
    ∷ [])

abbrev tools : Value → Value
tools schema = object (
    (
      codes "tools",
      array
          (object ((codes "name", str (codes "build")) ∷ (codes "inputSchema", schema) ∷ []) ∷ []),
    )
    ∷ [])

-- An argument that must now be sent.
an_argument_is_required : is_compatible (mcp_diff shown (tools item) (tools strict_item)) ≡ false
unfolding is_compatible mcp_diff sort insert_change change_cmp compare_keys compare_key from_list
    by_name extend index get get_field text_cmp map_get compare_tool compare walk reference
    walk_inside mem_text value_eq size texts added_severity mem_pair requirement visit_properties
    visit_property compare_enum deref difference render required_set values insert
an_argument_is_required = refl

an_argument_is_optional : is_compatible (mcp_diff shown (tools strict_item) (tools item)) ≡ true
unfolding is_compatible mcp_diff sort insert_change change_cmp compare_keys compare_key from_list
    by_name extend index get get_field text_cmp map_get compare_tool compare walk reference
    walk_inside mem_text value_eq size texts added_severity mem_pair requirement visit_properties
    visit_property compare_enum deref difference render required_set values insert
an_argument_is_optional = refl

diff_nothing_example :
    (openapi_diff same shown (tools item) (tools item) ≡ [])
    × (asyncapi_diff shown (tools item) (tools item) ≡ [])
    × (graphql_diff (tools item) (tools item) ≡ [])
    × (mcp_diff shown (tools item) (tools item) ≡ [])
unfolding keyed
diff_nothing_example = diff_nothing same shown (tools item) refl

is_compatible-compare_types_example :
    (is_compatible (compare_types [] (print plain_list) (print strict_list) response) ≡ true)
    × (is_compatible (compare_types [] (print strict_list) (print plain_list) request) ≡ true)
    × (is_compatible (compare_types [] (print strict_list) (print plain_list) response)
        ≡ text_eq (print strict_list) (print plain_list))
    × (is_compatible (compare_types [] (print plain_list) (print strict_list) request)
        ≡ text_eq (print plain_list) (print strict_list))
unfolding plain text_eq keeps
is_compatible-compare_types_example =
    is_compatible-compare_types [] plain_list strict_list refl refl refl

moved_mark_example :
    (keeps
        (list_of (with_mark true (named (codes "Int") false)) false)
        (list_of (with_mark false (named (codes "Int") false)) true)
      ≡ false)
    × (is_compatible (
          compare_types []
            (print (list_of (with_mark true (named (codes "Int") false)) false))
            (print (list_of (with_mark false (named (codes "Int") false)) true))
            response)
        ≡ true)
    × (is_compatible (
          compare_types []
            (print (list_of (with_mark false (named (codes "Int") false)) true))
            (print (list_of (with_mark true (named (codes "Int") false)) false))
            request)
        ≡ true)
unfolding plain text_eq
moved_mark_example = moved_mark [] (named (codes "Int") false) refl

is_compatible-diff_example : KeptExactly same shown (tools item) (tools strict_item)
is_compatible-diff_example = is_compatible-diff same shown (tools item) (tools strict_item)
