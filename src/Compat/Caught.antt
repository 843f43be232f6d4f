-- ===== src/Compat/Caught.antt =====
-- A comparison reports every property whose change breaks the consumer.
use soothfast.Base.{
  ℕ, zero, suc, ◌≡◌, refl, ◌∙◌, Bool, true, false, ◌&&◌, List, [], ◌∷◌, ◌++◌, none, some, arith,
  Text, codes, text_eq, mem_text, Bool-cases, Option-cases, inl, inr,
}
use soothfast.Base.Parse.{is_empty}
use soothfast.Base.BTreeSet.{mem-from_list}
use soothfast.Base.Json.{Value, Fields, end, field, get_field, index}
use soothfast.Compat.{Change, is_compatible, required_set, deref}
use soothfast.Compat.Walk.{
  Direction, request, response, Walked, mem_pair, reference, properties, names, is_array,
  property_names, type_moved, walk_inside, walk,
}
use soothfast.Compat.Size.{deref_here, mem-append}
use soothfast.Compat.Compare.{compare, compare_ends}
use soothfast.Compat.Breaks.{
  breaks, breaks_of, ended, Stays, visit_properties-breaks, with_enum-fails, walk_inside-Stays,
}

mem-names :
    (k : Text) (fs : Fields) (v : Value) → get_field k fs ≡ some v → mem_text k (names fs) ≡ true
unfolding get_field mem_text
mem-names k end v h = cc
mem-names k (field j w fs) v h = elim (Bool-cases (text_eq j k)) [
  | inl e ↦ rw e refl
  | inr e ↦ rw e (mem-names k fs v (rw (e, get_field) at h))
]

-- A property whose change breaks is one of those that the loop visits.
breaks-mem :
    (dir : Direction) (old new : Value) (name : Text)
    → breaks dir old new name ≡ true
    → mem_text name (property_names old new) ≡ true
breaks-mem dir old new name h =
    mem-from_list name (names (properties old) ++ names (properties new))
    ∙ mem-append name (names (properties old)) (names (properties new))
    ∙ elim (Option-cases (get_field name (properties old))) [
      | inl e ↦ elim (Option-cases (get_field name (properties new))) [
        | inl f ↦ absurd (
            wrong dir (mem_text name (required_set old)) (mem_text name (required_set new))
              (rw (e, f, breaks) at h))
        | inr (n, f) ↦ rw (mem-names name (properties new) n f) (ground arith)
      ]
      | inr (o, e) ↦ rw (mem-names name (properties old) o e) refl
    ]
  where
    wrong : (dir : Direction) (a b : Bool) → breaks_of dir none none a b ≡ true → ⊥
    wrong request a b p = cc
    wrong response a b p = cc

module _ (to_string : Value → Text) (old_doc new_doc : Value) (dir : Direction) where
  walk-Stays : (n : ℕ) → Stays dir (walk to_string old_doc new_doc dir n)
  unfolding walk
  walk-Stays zero place o p changes seen w h q = cc
  walk-Stays (suc n) place o p changes seen w h q =
      elim (Bool-cases (is_empty (reference o) && is_empty (reference p))) [
        | inl e ↦
            walk_inside-Stays dir (walk to_string old_doc new_doc dir n) to_string place
              (deref old_doc o) (deref new_doc p) changes seen w (walk-Stays n) h
              (rw (e, walk) at q)
        | inr e ↦ elim (Bool-cases (mem_pair (reference o, reference p) seen)) [
          | inl m ↦ ended (changes, seen) w (rw (e, m, walk) at q) h
          | inr m ↦
              walk_inside-Stays dir (walk to_string old_doc new_doc dir n) to_string place
                (deref old_doc o) (deref new_doc p) changes ((reference o, reference p) ∷ seen) w
                (walk-Stays n) h (rw (e, m, walk) at q)
        ]
      ]

  module _ (place : Text) (old new : Value) (changes : List Change)
      (here_old : is_empty (reference old) ≡ true) (here_new : is_empty (reference new) ≡ true)
      (stays_type : type_moved to_string (index old (codes "type")) (index new (codes "type"))
        ≡ false)
      (no_array : is_array (index old (codes "type")) ≡ false) where
    walk-breaks :
        (n : ℕ) (name : Text) (w : Walked)
        → breaks dir old new name ≡ true
        → walk to_string old_doc new_doc dir (suc n) place old new (changes, []) ≡ some w
        → is_compatible w.0 ≡ false
    unfolding walk walk_inside
    walk-breaks n name w h q =
        with_enum-fails dir (walk to_string old_doc new_doc dir n) to_string place old new _ w
          (λ v p.
            visit_properties-breaks dir (walk to_string old_doc new_doc dir n) place old new name
              (property_names old new) changes [] v (walk-Stays n) h (breaks-mem dir old new name h)
              p)
          (rw
            (
              here_old,
              here_new,
              deref_here old_doc old here_old,
              deref_here new_doc new here_new,
              stays_type,
              no_array,
              walk,
              walk_inside,
            )
            at q)

    -- Two schemas that refer to nothing else, are of one type and are no arrays: a property that is
    -- gone, one that the consumer who sends the data must now send, and one that the consumer who reads
    -- it was promised and no longer is make the comparison incompatible, whatever else there is.
    pub is_compatible-compare :
        (name : Text)
        → breaks dir old new name ≡ true
        → is_compatible (compare to_string old_doc new_doc changes place old new dir) ≡ false
    is_compatible-compare name h =
        let (seen, e) = compare_ends to_string old_doc new_doc dir changes place old new in
        walk-breaks _ name (compare to_string old_doc new_doc changes place old new dir, seen) h e
