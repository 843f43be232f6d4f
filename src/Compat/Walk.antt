-- ===== src/Compat/Walk.antt =====
-- `SchemaDiff` of soothfast-spec/src/compat.rs. Each function takes the changes so far with the pairs of
-- references seen, and gives both back. The walk runs on fuel and is none without.
use soothfast.Base.{
  ℕ, zero, suc, Bool, true, false, not, ◌&&◌, ◌||◌, List, [], ◌∷◌, ◌++◌, Option, none, some,
  if◌then◌else◌, Text, codes, text_eq, mem_text,
}
use soothfast.Base.Parse.{is_empty}
use soothfast.Base.BTreeSet.{BTreeSet, from_list}
use soothfast.Base.Json.{Value, str, obj, Fields, end, field, get_field, index, as_str, is_null}
use soothfast.Base.JsonEq.{value_eq}
use soothfast.Compat.{
  Severity, additive, breaking, Change, deref, required_set, render, compare_enum,
}

pub data Direction : Type 0 where
  request response : Direction

-- Pairs of references, in no particular order: they are only looked up.
abbrev pub Seen : Type 0
Seen = List (Text × Text)

abbrev pub Walked : Type 0
Walked = List Change × Seen

abbrev pub pair_eq : Text × Text → Text × Text → Bool
pair_eq p q = text_eq p.0 q.0 && text_eq p.1 q.1

unfoldable pub mem_pair : Text × Text → Seen → Bool
mem_pair p [] = false
mem_pair p (q ∷ seen) = pair_eq q p || mem_pair p seen

abbrev pub or_blank : Option Text → Text
or_blank none = []
or_blank (some t) = t

-- `old["$ref"].as_str().unwrap_or_default()`
unfoldable pub reference : Value → Text
reference v = or_blank (as_str (index v (codes "$ref")))

-- `as_object().unwrap_or(&empty)`
abbrev pub fields_of : Value → Fields
fields_of (obj fs) = fs
fields_of v = end

abbrev pub properties : Value → Fields
properties v = fields_of (index v (codes "properties"))

abbrev pub names : Fields → List Text
names end = []
names (field k v fs) = k ∷ names fs

abbrev pub is_array : Value → Bool
is_array (str s) = text_eq s (codes "array")
is_array v = false

-- A property that only the new schema has breaks callers who must now send it.
unfoldable pub added_severity : Direction → Bool → Severity
added_severity request true = breaking
added_severity request false = additive
added_severity response b = additive

-- What is pushed of a property that both have, by whether it was and is required.
unfoldable pub requirement : Direction → Text → Bool → Bool → List Change
requirement request place false true =
    record { severity = breaking; place = place; detail = codes "became required" } ∷ []
requirement response place true false =
    record { severity = breaking; place = place; detail = codes "no longer guaranteed" } ∷ []
requirement response place false true =
    record { severity = additive; place = place; detail = codes "became required" } ∷ []
requirement request place true false =
    record { severity = additive; place = place; detail = codes "became optional" } ∷ []
requirement dir place false false = []
requirement dir place true true = []

-- A walk of two schemas at a place.
abbrev pub Descent : Type 0
Descent = Text → Value → Value → Walked → Option Walked

module _ (dir : Direction) (descend : Descent) where
  -- One round of the loop over the names.
  unfoldable pub visit_property : Text → Value → Value → Text → Walked → Option Walked
  visit_property place old new name (changes, seen) = elim (get_field name (properties old)) [
    | some o ↦ elim (get_field name (properties new)) [
      | some n ↦ descend (place ++ (b'.' ∷ name)) o n (
        changes
            ++ requirement dir (place ++ (b'.' ∷ name)) (mem_text name (required_set old))
                (mem_text name (required_set new)),
        seen,
      )
      | none ↦ some (
        changes
            ++ record {
              severity = breaking;
              place = place ++ (b'.' ∷ name);
              detail = codes "property removed";
            }
              ∷ [],
        seen,
      )
    ]
    | none ↦ elim (get_field name (properties new)) [
      | some n ↦ some (
        changes
            ++ record {
              severity = added_severity dir (mem_text name (required_set new));
              place = place ++ (b'.' ∷ name);
              detail = codes "property added";
            }
              ∷ [],
        seen,
      )
      | none ↦ some (changes, seen)
    ]
  ]

  unfoldable pub visit_properties : Text → Value → Value → List Text → Walked → Option Walked
  visit_properties place old new [] w = some w
  visit_properties place old new (name ∷ names) w = elim (visit_property place old new name w) [
    | none ↦ none
    | some w ↦ visit_properties place old new names w
  ]

abbrev pub property_names : Value → Value → BTreeSet
property_names old new = from_list (names (properties old) ++ names (properties new))

module _ (to_string : Value → Text) where
  -- `compare_enum(changes, at, old, new)`
  abbrev pub with_enum : Text → Value → Value → Option Walked → Option Walked
  with_enum place old new none = none
  with_enum place old new (some (changes, seen)) =
      some (changes ++ compare_enum to_string place old new, seen)

  abbrev pub type_moved : Value → Value → Bool
  type_moved ot nt = not (value_eq ot nt) && not (is_null ot && is_null nt)

  -- The walk behind the references.
  unfoldable pub walk_inside : Direction → Descent → Text → Value → Value → Walked → Option Walked
  walk_inside dir descend place old new (changes, seen) =
      let ot = index old (codes "type") in
      let nt = index new (codes "type") in
      if type_moved ot nt
      then some (
        changes
            ++ record {
              severity = breaking;
              place = place;
              detail =
                  codes "type " ++ (render to_string ot ++ (codes " -> " ++ render to_string nt));
            }
              ∷ [],
        seen,
      )
      else if is_array ot
      then descend (place ++ codes "[]") (index old (codes "items")) (index new (codes "items"))
          (changes, seen)
      else with_enum place old new
          (visit_properties dir descend place old new (property_names old new) (changes, seen))

  module _ (old_doc new_doc : Value) (dir : Direction) where
    unfoldable pub walk : ℕ → Descent
    walk zero place old new w = none
    walk (suc fuel) place old new (changes, seen) =
        let pair : Text × Text = (reference old, reference new) in
        let inside = walk_inside dir (walk fuel) place (deref old_doc old) (deref new_doc new) in
        if is_empty (reference old) && is_empty (reference new)
        then inside (changes, seen)
        else if mem_pair pair seen
        then some (changes, seen)
        else inside (changes, pair ∷ seen)
