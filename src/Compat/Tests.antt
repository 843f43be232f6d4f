-- ===== src/Compat/Tests.antt =====
-- Runs of the comparison, and each theorem about it at a concrete input.
use soothfast.Base.JsonEq.{value_eq}
use soothfast.Base.Format.{replace_from}
use soothfast.Base.Parse.{split}
use soothfast.Base.Order.{text_cmp}
use soothfast.Base.BTreeSet.{from_list}
use mathlib.Core.List.{Perm}
use soothfast.Base.{
  starts_with, strip_prefix, mem_text, ◌≡◌, refl, true, false, not, all, List, [], ◌∷◌, Text, codes,
  some,
}
use soothfast.Base.BTreeMap.{BTreeMap, keys}
use soothfast.Base.Json.{index, get, Value, str, bool, object, strings}
use soothfast.Compat.{
  required_set, follow, difference, render, additive, breaking, Change, is_compatible, sort,
  resolve_pointer, values, compare_enum, compare_keys,
}
use soothfast.Compat.Walk.{reference, Seen, request, walk}
use soothfast.Compat.Caught.{is_compatible-compare}
use soothfast.Compat.Compare.{fuel, compare, compare_ends}
use soothfast.Compat.Values.{entry_kept, is_compatible-compare_keys}
use soothfast.Compat.Order.{IsReported, first_breaking, sort_lem}

abbrev old_schema : Value
old_schema = object ((codes "enum", strings (codes "a" ∷ codes "b" ∷ [])) ∷ [])

abbrev new_schema : Value
new_schema = object ((codes "enum", strings (codes "b" ∷ codes "c" ∷ [])) ∷ [])

abbrev shown : Value → Text
shown v = codes "?"

abbrev old_tools : BTreeMap Value
old_tools = (codes "build", bool true) ∷ (codes "check", bool true) ∷ []

abbrev new_tools : BTreeMap Value
new_tools = (codes "check", bool true) ∷ (codes "test", bool true) ∷ []

abbrev changes : List Change
changes =
    record { severity = additive; place = codes "a"; detail = codes "tool added" }
    ∷ record { severity = breaking; place = codes "b"; detail = codes "tool removed" }
    ∷ []

a_value_is_gone : is_compatible (compare_enum shown (codes "qty") old_schema new_schema) ≡ false
unfolding is_compatible compare_enum values from_list get index text_cmp render difference mem_text
a_value_is_gone = refl

pointers_resolve :
    resolve_pointer
      (object ((codes "a/b", object ((codes "c", bool true) ∷ [])) ∷ []))
      (codes "#/a~1b/c")
    ≡ some (bool true)
unfolding resolve_pointer strip_prefix follow split get replace_from starts_with
pointers_resolve = refl

is_compatible-compare_keys_example :
    is_compatible (compare_keys old_tools new_tools (codes "tool") (λ k o n. []))
    ≡ all (entry_kept old_tools new_tools (codes "tool") (λ k o n. [])) (keys old_tools)
is_compatible-compare_keys_example =
    is_compatible-compare_keys old_tools new_tools (codes "tool") (λ k o n. [])

sort_lem_example :
    Perm (sort changes) changes
    × IsReported (sort changes)
    × (first_breaking (sort changes) ≡ not (is_compatible changes))
sort_lem_example = sort_lem changes

-- A schema that refers to itself.
abbrev loop_schema : Value
loop_schema = object (
    (codes "$ref", str (codes "#"))
    ∷ (
      codes "properties",
      object ((codes "next", object ((codes "$ref", str (codes "#")) ∷ [])) ∷ []),
    )
    ∷ [])

compare_ends_example :
    (seen : Seen) × (walk shown loop_schema loop_schema request
        (fuel loop_schema loop_schema loop_schema loop_schema)
        []
        loop_schema
        loop_schema
        ([], [])
      ≡ some (compare shown loop_schema loop_schema [] [] loop_schema loop_schema request, seen))
compare_ends_example =
    compare_ends shown loop_schema loop_schema request [] [] loop_schema loop_schema

abbrev id_field : Value
id_field = object ((codes "id", object ((codes "type", str (codes "string")) ∷ [])) ∷ [])

abbrev item : Value
item = object ((codes "type", str (codes "object")) ∷ (codes "properties", id_field) ∷ [])

abbrev strict_item : Value
strict_item = object (
    (codes "type", str (codes "object"))
    ∷ (codes "properties", id_field)
    ∷ (codes "required", strings (codes "id" ∷ []))
    ∷ [])

is_compatible-compare_example :
    is_compatible (compare shown item strict_item [] (codes "at") item strict_item request) ≡ false
unfolding reference index value_eq mem_text required_set from_list
is_compatible-compare_example =
    is_compatible-compare shown item strict_item request (codes "at") item strict_item [] refl refl
      refl refl (codes "id") refl
