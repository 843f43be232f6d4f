-- ===== src/Compat/Ends.antt =====
-- How long the walk over two schemas can be. A walk into a part makes the old schema smaller; a walk
-- through a reference takes one pair of texts off those that are not seen yet.
use soothfast.Base.{
  ℕ, ◌≤◌, ◌<◌, ◌≡◌, refl, true, false, List, [], ◌∷◌, Option, some, arith, Text, codes, Bool-cases,
  Option-cases, inl, inr,
}
use soothfast.Base.Json.{
  Value, null, bool, uint, negint, float, str, arr, obj, get_field, get, index, is_null,
}
use soothfast.Compat.Walk.{
  Direction, Seen, Walked, Descent, properties, is_array, visit_property, visit_properties,
  property_names, type_moved, with_enum, fields_of, walk_inside,
}
use soothfast.Compat.Size.{size, texts, Within, Part, index-Part, get-Part}
use soothfast.Compat.Pairs.{unseen}

-- A walk that ends, with no more than `u` pairs unseen.
abbrev pub Done : Seen → ℕ → Option Walked → Type 0
Done all u r = (w : Walked) × (r ≡ some w) × (unseen all w.1 ≤ u)

-- A field of an object is a field of what `as_object` gives of it, which is empty for any other value.
field_of : (v x : Value) (name : Text) → get_field name (fields_of v) ≡ some x → get name v ≡ some x
unfolding get get_field
field_of (obj fs) x name h = h
field_of null x name h = cc
field_of (bool b) x name h = cc
field_of (uint n) x name h = cc
field_of (negint n) x name h = cc
field_of (float n) x name h = cc
field_of (str s) x name h = cc
field_of (arr vs) x name h = cc

Part-under :
    (u v w : Value)
    → (size u < size v) × Within (texts v) u
    → Part v w
    → (size u < size w) × Within (texts w) u
Part-under u v w (a, f) (b, g) = (omega arith, λ t h. g t (f t h))

properties-Part :
    (v x : Value) (name : Text)
    → get_field name (properties v) ≡ some x
    → (size x < size v) × Within (texts v) x
properties-Part v x name h =
    let (lt, inside) = get-Part name (index v (codes "properties")) x (field_of _ x name h) in
    Part-under x (index v (codes "properties")) v (lt, inside) (index-Part (codes "properties") v).0

-- A schema with a type is no null.
typed : (v : Value) → is_array (index v (codes "type")) ≡ true → is_null v ≡ false
unfolding index get
typed null h = cc
typed (bool b) h = refl
typed (uint n) h = refl
typed (negint n) h = refl
typed (float n) h = refl
typed (str s) h = refl
typed (arr vs) h = refl
typed (obj fs) h = refl

with_enum-Done :
    (all : Seen) (to_string : Value → Text) (place : Text) (old new : Value) (u : ℕ)
    (r : Option Walked)
    → Done all u r
    → Done all u (with_enum to_string place old new r)
with_enum-Done all to_string place old new u r ((changes, seen), e, le) = rw e (_, refl, le)

module _ (all : Seen) (dir : Direction) (descend : Descent) (old new : Value) where
  -- The walks of what is inside the two schemas end.
  abbrev pub Inner : ℕ → Type 0
  Inner u =
      (place : Text) (o n : Value) (w : Walked)
      → size o < size old
      → Within (texts old) o
      → Within (texts new) n
      → unseen all w.1 ≤ u
      → Done all (unseen all w.1) (descend place o n w)

  visit_property-Done :
      (place name : Text) (w : Walked) (u : ℕ)
      → Inner u
      → unseen all w.1 ≤ u
      → Done all (unseen all w.1) (visit_property dir descend place old new name w)
  unfolding visit_property
  visit_property-Done place name (changes, seen) u inner h =
      elim (Option-cases (get_field name (properties old))) [
        | inl e ↦ elim (Option-cases (get_field name (properties new))) [
          | inl f ↦ rw (e, f, visit_property) (_, refl, omega arith)
          | inr (n, f) ↦ rw (e, f, visit_property) (_, refl, omega arith)
        ]
        | inr (o, e) ↦ elim (Option-cases (get_field name (properties new))) [
          | inl f ↦ rw (e, f, visit_property) (_, refl, omega arith)
          | inr (n, f) ↦
              rw (e, f, visit_property)
                (inner _ o n _ (properties-Part old o name e).0 (properties-Part old o name e).1
                  (properties-Part new n name f).1 h)
        ]
      ]

  visit_properties-Done :
      (place : Text) (names : List Text) (w : Walked) (u : ℕ)
      → Inner u
      → unseen all w.1 ≤ u
      → Done all (unseen all w.1) (visit_properties dir descend place old new names w)
  unfolding visit_properties
  visit_properties-Done place [] w u inner h = (w, refl, omega arith)
  visit_properties-Done place (name ∷ names) w u inner h =
      let (v, e, le) = visit_property-Done place name w u inner h in
      let (x, f, le') = visit_properties-Done place names v u inner (omega arith) in
      rw (e, visit_properties) (x, f, omega arith)

  pub walk_inside-Done :
      (to_string : Value → Text) (place : Text) (w : Walked) (u : ℕ)
      → Inner u
      → unseen all w.1 ≤ u
      → Done all (unseen all w.1) (walk_inside to_string dir descend place old new w)
  unfolding walk_inside
  walk_inside-Done to_string place (changes, seen) u inner h =
      elim (Bool-cases
        (type_moved to_string (index old (codes "type")) (index new (codes "type")))) [
          | inl e ↦ rw (e, walk_inside) (_, refl, omega arith)
          | inr e ↦ elim (Bool-cases (is_array (index old (codes "type")))) [
            | inl f ↦
                rw (e, f, walk_inside)
                  (inner _ _ _ _ ((index-Part (codes "items") old).1 (typed old f))
                    (index-Part (codes "items") old).0.1 (index-Part (codes "items") new).0.1 h)
            | inr f ↦
                let (v, g, le) =
                  visit_properties-Done place (property_names old new) (changes, seen) u inner h in
                rw (e, f, walk_inside)
                  (with_enum-Done all to_string place old new _ _ (v, g, omega (arith, le)))
          ]
        ]
