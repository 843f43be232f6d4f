-- ===== src/Compat/Breaks.antt =====
-- What breaks a consumer, property by property, and that a comparison never forgets it.
use soothfast.Base.{
  ◌≡◌, refl, sym, ◌∙◌, Bool, true, false, not, ◌&&◌, List, [], ◌∷◌, ◌++◌, Option, none, some, arith,
  Text, codes, text_eq, text_eq_iff, mem_text, Bool-cases, Option-cases, inl, inr,
}
use soothfast.Base.Json.{Value, get_field, index}
use soothfast.Compat.{Change, change, is_compatible, required_set}
use soothfast.Compat.Values.{is_compatible-append}
use soothfast.Compat.Walk.{
  Direction, request, response, Seen, Walked, Descent, properties, names, is_array, added_severity,
  requirement, visit_property, visit_properties, property_names, type_moved, with_enum, walk_inside,
}

-- Whether what one schema asks of a property and the other does not breaks the consumer: one that sends
-- the data must not be asked for more, one that reads it must not be promised less.
abbrev demands : Direction → Bool → Bool → Bool
demands request was is = not was && is
demands response was is = was && not is

abbrev pub breaks_of : Direction → Option Value → Option Value → Bool → Bool → Bool
breaks_of dir (some o) (some n) was is = demands dir was is
breaks_of dir (some o) none was is = true
breaks_of request none (some n) was is = is
breaks_of response none (some n) was is = false
breaks_of dir none none was is = false

abbrev pub breaks : Direction → Value → Value → Text → Bool
breaks dir old new name =
    breaks_of dir (get_field name (properties old)) (get_field name (properties new))
      (mem_text name (required_set old)) (mem_text name (required_set new))

-- Changes that are not compatible stay so with whatever is pushed behind them.
fails-append : (a b : List Change) → is_compatible a ≡ false → is_compatible (a ++ b) ≡ false
fails-append a b h = is_compatible-append a b ∙ rw h refl

fails-pushed : (a b : List Change) → is_compatible b ≡ false → is_compatible (a ++ b) ≡ false
fails-pushed a b h = is_compatible-append a b ∙ rw h (ground arith)

pub ended : (v w : Walked) → some v ≡ some w → is_compatible v.0 ≡ false → is_compatible w.0 ≡ false
ended v w e h = let q : v ≡ w = inj e in rw (sym q) h
  where
    inj : some v ≡ some w → v ≡ w
    inj p = cc

none-some : {w : Walked} → none ≡ some w → ⊥
none-some p = cc

requirement-breaks :
    (dir : Direction) (place : Text) (was is : Bool)
    → demands dir was is ≡ true
    → is_compatible (requirement dir place was is) ≡ false
unfolding requirement is_compatible
requirement-breaks request place false true h = refl
requirement-breaks response place true false h = refl
requirement-breaks request place true is h = cc
requirement-breaks request place false false h = cc
requirement-breaks response place false is h = cc
requirement-breaks response place true true h = cc

added-breaks :
    (dir : Direction) (place detail : Text) (was is : Bool) (n : Value)
    → breaks_of dir none (some n) was is ≡ true
    → is_compatible (change (added_severity dir is) place detail ∷ []) ≡ false
unfolding added_severity is_compatible
added-breaks request place detail was true n h = refl
added-breaks request place detail was false n h = cc
added-breaks response place detail was is n h = cc

module _ (dir : Direction) (descend : Descent) where
  -- The walk forgets no change that breaks.
  abbrev pub Stays : Type 0
  Stays =
      (place : Text) (o n : Value) (changes : List Change) (seen : Seen) (w : Walked)
      → is_compatible changes ≡ false
      → descend place o n (changes, seen) ≡ some w
      → is_compatible w.0 ≡ false

  visit_property-Stays :
      (place : Text) (old new : Value) (name : Text) (changes : List Change) (seen : Seen)
      (w : Walked)
      → Stays
      → is_compatible changes ≡ false
      → visit_property dir descend place old new name (changes, seen) ≡ some w
      → is_compatible w.0 ≡ false
  unfolding visit_property
  visit_property-Stays place old new name changes seen w stays h q =
      elim (Option-cases (get_field name (properties old))) [
        | inl e ↦ elim (Option-cases (get_field name (properties new))) [
          | inl f ↦ ended (changes, seen) w (rw (e, f, visit_property) at q) h
          | inr (n, f) ↦ ended _ w (rw (e, f, visit_property) at q) (fails-append changes _ h)
        ]
        | inr (o, e) ↦ elim (Option-cases (get_field name (properties new))) [
          | inl f ↦ ended _ w (rw (e, f, visit_property) at q) (fails-append changes _ h)
          | inr (n, f) ↦
              stays (place ++ (b'.' ∷ name)) o n _ seen w (fails-append changes _ h)
                (rw (e, f, visit_property) at q)
        ]
      ]

  visit_properties-Stays :
      (place : Text) (old new : Value) (names : List Text) (changes : List Change) (seen : Seen)
      (w : Walked)
      → Stays
      → is_compatible changes ≡ false
      → visit_properties dir descend place old new names (changes, seen) ≡ some w
      → is_compatible w.0 ≡ false
  unfolding visit_properties
  visit_properties-Stays place old new [] changes seen w stays h q = ended (changes, seen) w q h
  visit_properties-Stays place old new (name ∷ names) changes seen w stays h q =
      elim (Option-cases (visit_property dir descend place old new name (changes, seen))) [
        | inl e ↦ absurd (none-some (rw (e, visit_properties) at q))
        | inr ((after, seen'), e) ↦
            visit_properties-Stays place old new names after seen' w stays
              (visit_property-Stays place old new name changes seen (after, seen') stays h e)
              (rw (e, visit_properties) at q)
      ]

  visit_property-breaks :
      (place : Text) (old new : Value) (name : Text) (changes : List Change) (seen : Seen)
      (w : Walked)
      → Stays
      → breaks dir old new name ≡ true
      → visit_property dir descend place old new name (changes, seen) ≡ some w
      → is_compatible w.0 ≡ false
  unfolding visit_property
  visit_property-breaks place old new name changes seen w stays h q =
      let was = mem_text name (required_set old) in
      let is = mem_text name (required_set new) in
      elim (Option-cases (get_field name (properties old))) [
        | inl e ↦ elim (Option-cases (get_field name (properties new))) [
          | inl f ↦ absurd (wrong (rw (e, f, breaks) at h))
          | inr (n, f) ↦
              ended _ w (rw (e, f, visit_property) at q)
                (fails-pushed changes _ (added-breaks dir _ _ was is n (rw (e, f, breaks) at h)))
        ]
        | inr (o, e) ↦ elim (Option-cases (get_field name (properties new))) [
          | inl f ↦
              ended _ w (rw (e, f, visit_property) at q)
                (fails-pushed changes _ (unfold is_compatible in refl))
          | inr (n, f) ↦
              stays (place ++ (b'.' ∷ name)) o n _ seen w
                (fails-pushed changes _ (requirement-breaks dir _ was is (rw (e, f, breaks) at h)))
                (rw (e, f, visit_property) at q)
        ]
      ]
    where
      wrong :
          breaks_of dir none none
              (mem_text name (required_set old))
              (mem_text name (required_set new))
            ≡ true
          → ⊥
      wrong p = cc

  pub visit_properties-breaks :
      (place : Text) (old new : Value) (name : Text) (names : List Text) (changes : List Change)
      (seen : Seen) (w : Walked)
      → Stays
      → breaks dir old new name ≡ true
      → mem_text name names ≡ true
      → visit_properties dir descend place old new names (changes, seen) ≡ some w
      → is_compatible w.0 ≡ false
  unfolding visit_properties mem_text
  visit_properties-breaks place old new name [] changes seen w stays h m q = cc
  visit_properties-breaks place old new name (x ∷ names) changes seen w stays h m q =
      elim (Option-cases (visit_property dir descend place old new x (changes, seen))) [
        | inl e ↦ absurd (none-some (rw (e, visit_properties) at q))
        | inr ((after, seen'), e) ↦ elim (Bool-cases (text_eq x name)) [
          | inl same ↦
              let p : x ≡ name = (text_eq_iff x name).0 same in
              visit_properties-Stays place old new names after seen' w stays
                (visit_property-breaks place old new x changes seen (after, seen') stays (rw p h) e)
                (rw (e, visit_properties) at q)
          | inr other ↦
              visit_properties-breaks place old new name names after seen' w stays h
                (ground (arith, m, other)) (rw (e, visit_properties) at q)
        ]
      ]

  pub with_enum-fails :
      (to_string : Value → Text) (place : Text) (old new : Value) (r : Option Walked) (w : Walked)
      → ((v : Walked) → r ≡ some v → is_compatible v.0 ≡ false)
      → with_enum to_string place old new r ≡ some w
      → is_compatible w.0 ≡ false
  with_enum-fails to_string place old new none w h q = cc
  with_enum-fails to_string place old new (some (changes, seen)) w h q =
      ended _ w q (fails-append changes _ (h (changes, seen) refl))

  pub walk_inside-Stays :
      (to_string : Value → Text) (place : Text) (old new : Value) (changes : List Change)
      (seen : Seen) (w : Walked)
      → Stays
      → is_compatible changes ≡ false
      → walk_inside to_string dir descend place old new (changes, seen) ≡ some w
      → is_compatible w.0 ≡ false
  unfolding walk_inside
  walk_inside-Stays to_string place old new changes seen w stays h q =
      elim (Bool-cases
        (type_moved to_string (index old (codes "type")) (index new (codes "type")))) [
          | inl e ↦ ended _ w (rw (e, walk_inside) at q) (fails-append changes _ h)
          | inr e ↦ elim (Bool-cases (is_array (index old (codes "type")))) [
            | inl f ↦
                stays (place ++ codes "[]") (index old (codes "items")) (index new (codes "items"))
                  changes seen w h (rw (e, f, walk_inside) at q)
            | inr f ↦
                with_enum-fails to_string place old new _ w
                  (λ v p.
                    visit_properties-Stays place old new (property_names old new) changes seen v
                      stays h p)
                  (rw (e, f, walk_inside) at q)
          ]
        ]
