-- ===== src/Compat/Same.antt =====
-- A schema compared with itself, in one document: the walk pushes nothing.
use soothfast.Base.{
  ◌≡◌, refl, Bool, true, false, not, ◌&&◌, List, [], ◌∷◌, ◌++◌, append-nil, keep, Option, none,
  some, arith, Text, codes, mem_text, text_eq_iff, Bool-cases, Option-cases, inl, inr,
}
use soothfast.Base.Parse.{is_empty}
use soothfast.Base.Json.{Value, null, bool, uint, negint, float, str, arr, obj, get_field, index}
use soothfast.Base.JsonKeyed.{keyed, keyed_fields, value_eq_refl, get_field-keyed, index-keyed}
use soothfast.Compat.{Change, difference, values, compare_enum, required_set}
use soothfast.Compat.Walk.{
  Direction, request, response, Seen, Walked, Descent, properties, fields_of, is_array, requirement,
  visit_property, visit_properties, property_names, type_moved, with_enum, walk_inside,
}
use soothfast.Compat.Compare.{changes_of}

difference_within :
    (xs o : List Text)
    → ((v : Text) → mem_text v xs ≡ true → mem_text v o ≡ true)
    → keep (λ v. not (mem_text v o)) xs ≡ []
unfolding mem_text
difference_within [] o h = refl
difference_within (x ∷ xs) o h =
    rw (h x (ground (arith, text_eq_iff x x)))
      (difference_within xs o (λ v m. h v (ground (arith, m))))

-- No text of a list is missing from it.
pub difference_same : (o : List Text) → keep (λ v. not (mem_text v o)) o ≡ []
difference_same o = difference_within o o (λ v m. m)

compare_enum_same :
    (to_string : Value → Text) (place : Text) (v : Value) → compare_enum to_string place v v ≡ []
unfolding compare_enum difference
compare_enum_same to_string place v =
    elim (Bool-cases (is_empty (values to_string v) && is_empty (values to_string v))) [
      | inl e ↦ rw (e, compare_enum) refl
      | inr e ↦ rw (e, difference_same (values to_string v), compare_enum) refl
    ]

requirement_same : (dir : Direction) (place : Text) (b : Bool) → requirement dir place b b ≡ []
unfolding requirement
requirement_same request place true = refl
requirement_same request place false = refl
requirement_same response place true = refl
requirement_same response place false = refl

type_moved_same :
    (to_string : Value → Text) (t : Value) → keyed t ≡ true → type_moved to_string t t ≡ false
type_moved_same to_string t h = rw (value_eq_refl t h) refl

pub fields_of-keyed : (w : Value) → keyed w ≡ true → keyed_fields (fields_of w) ≡ true
unfolding keyed
fields_of-keyed (obj fs) h = h
fields_of-keyed null h = refl
fields_of-keyed (bool b) h = refl
fields_of-keyed (uint n) h = refl
fields_of-keyed (negint n) h = refl
fields_of-keyed (float n) h = refl
fields_of-keyed (str t) h = refl
fields_of-keyed (arr vs) h = refl

properties-keyed : (v : Value) → keyed v ≡ true → keyed_fields (properties v) ≡ true
properties-keyed v h =
    fields_of-keyed (index v (codes "properties")) (index-keyed (codes "properties") v h)

module _ (dir : Direction) (descend : Descent) where
  -- The walks of two schemas that are the same push nothing.
  abbrev pub Quiet : Type 0
  Quiet =
      (place : Text) (v : Value) (changes : List Change) (seen : Seen)
      → keyed v ≡ true
      → changes_of changes (descend place v v (changes, seen)) ≡ changes

  visit_property-Quiet :
      (place name : Text) (v : Value) (changes : List Change) (seen : Seen)
      → Quiet
      → keyed v ≡ true
      → changes_of changes (visit_property dir descend place v v name (changes, seen)) ≡ changes
  unfolding visit_property
  visit_property-Quiet place name v changes seen quiet h =
      elim (Option-cases (get_field name (properties v))) [
        | inl e ↦ rw (e, e, visit_property) refl
        | inr (o, e) ↦
            rw
              (
                e,
                e,
                visit_property,
                requirement_same dir (place ++ (b'.' ∷ name)) (mem_text name (required_set v)),
                append-nil changes,
              )
              (quiet (place ++ (b'.' ∷ name)) o changes seen
                (get_field-keyed name (properties v) o (properties-keyed v h) e))
      ]

  visit_properties-Quiet :
      (place : Text) (v : Value) (names : List Text) (changes : List Change) (seen : Seen)
      → Quiet
      → keyed v ≡ true
      → changes_of changes (visit_properties dir descend place v v names (changes, seen)) ≡ changes
  unfolding visit_properties
  visit_properties-Quiet place v [] changes seen quiet h = refl
  visit_properties-Quiet place v (name ∷ names) changes seen quiet h =
      elim (Option-cases (visit_property dir descend place v v name (changes, seen))) [
        | inl e ↦ rw (e, visit_properties) refl
        | inr ((after, seen'), e) ↦
            let same : after ≡ changes =
              rw e at (visit_property-Quiet place name v changes seen quiet h) in
            rw (e, same, visit_properties)
              (visit_properties-Quiet place v names changes seen' quiet h)
      ]

  pub walk_inside-Quiet :
      (to_string : Value → Text) (place : Text) (v : Value) (changes : List Change) (seen : Seen)
      → Quiet
      → keyed v ≡ true
      → changes_of changes (walk_inside to_string dir descend place v v (changes, seen)) ≡ changes
  unfolding walk_inside
  walk_inside-Quiet to_string place v changes seen quiet h =
      elim (Bool-cases (is_array (index v (codes "type")))) [
        | inl e ↦
            rw
              (
                type_moved_same to_string (index v (codes "type")) (index-keyed (codes "type") v h),
                e,
                walk_inside,
              )
              (quiet (place ++ codes "[]") (index v (codes "items")) changes seen
                (index-keyed (codes "items") v h))
        | inr e ↦
            rw
              (
                type_moved_same to_string (index v (codes "type")) (index-keyed (codes "type") v h),
                e,
                walk_inside,
              )
              (enum _ (visit_properties-Quiet place v (property_names v v) changes seen quiet h))
      ]
    where
      enum :
          (r : Option Walked)
          → changes_of changes r ≡ changes
          → changes_of changes (with_enum to_string place v v r) ≡ changes
      enum none e = refl
      enum (some (after, seen')) e = rw (compare_enum_same to_string place v, append-nil after) e
