-- ===== src/Dialect/Parts.antt =====
-- What the comparisons read of a document in which no object has a key twice has no such object.
use soothfast.Base.{
  ◌≡◌, refl, sym, Bool, true, List, [], ◌∷◌, Option, some, Text, all, &&_iff, filter_map,
  Option-cases, inl, inr,
}
use soothfast.Base.Json.{
  Value, null, bool, uint, negint, float, str, arr, obj, as_array, as_object, entries,
}
use soothfast.Base.JsonKeyed.{keyed, items-keyed, entries-keyed}
use soothfast.Base.BTreeMap.{extend}
use soothfast.Compat.{or_nil}
use soothfast.Compat.Walk.{fields_of}
use soothfast.Compat.Unchanged.{Keyed, extend-Keyed, Keyed-nil}

abbrev pub entry_keyed : Text × Value → Bool
entry_keyed e = keyed e.1

pub members-keyed : (v : Value) → keyed v ≡ true → all keyed (or_nil (as_array v)) ≡ true
unfolding keyed
members-keyed (arr vs) h = items-keyed vs h
members-keyed null h = refl
members-keyed (bool b) h = refl
members-keyed (uint n) h = refl
members-keyed (negint n) h = refl
members-keyed (float n) h = refl
members-keyed (str t) h = refl
members-keyed (obj fs) h = refl

pub as_object-keyed :
    (v : Value) (es : List (Text × Value))
    → keyed v ≡ true
    → as_object v ≡ some es
    → all entry_keyed es ≡ true
unfolding keyed
as_object-keyed (obj fs) es h e = let q : entries fs ≡ es = inj e in rw (sym q) (entries-keyed fs h)
  where
    inj : {A : Type 0} {x y : A} → some x ≡ some y → x ≡ y
    inj p = cc
as_object-keyed null es h e = cc
as_object-keyed (bool b) es h e = cc
as_object-keyed (uint n) es h e = cc
as_object-keyed (negint n) es h e = cc
as_object-keyed (float n) es h e = cc
as_object-keyed (str t) es h e = cc
as_object-keyed (arr vs) es h e = cc

-- A map of the entries of an object.
pub fields-Keyed : (v : Value) → keyed v ≡ true → Keyed (extend [] (entries (fields_of v)))
unfolding keyed extend
fields-Keyed (obj fs) h = extend-Keyed [] (entries fs) (entries-keyed fs h) Keyed-nil
fields-Keyed null h = Keyed-nil
fields-Keyed (bool b) h = Keyed-nil
fields-Keyed (uint n) h = Keyed-nil
fields-Keyed (negint n) h = Keyed-nil
fields-Keyed (float n) h = Keyed-nil
fields-Keyed (str t) h = Keyed-nil
fields-Keyed (arr vs) h = Keyed-nil

-- A map of the members of an array, each with the key that it has.
pub named-Keyed :
    (name : Value → Option (Text × Value)) (vs : List Value)
    → ((v : Value) (e : Text × Value) → name v ≡ some e → e.1 ≡ v)
    → all keyed vs ≡ true
    → Keyed (extend [] (filter_map name vs))
named-Keyed name vs same h = extend-Keyed [] (filter_map name vs) (named vs h) Keyed-nil
  where
    named : (vs : List Value) → all keyed vs ≡ true → all entry_keyed (filter_map name vs) ≡ true
    named [] h = refl
    named (v ∷ vs) h =
        let (here, rest) = (&&_iff (keyed v) (all keyed vs)).0 h in
        elim (Option-cases (name v)) [
          | inl e ↦ rw (e, filter_map) (named vs rest)
          | inr (x, e) ↦ rw (e, filter_map) ((&&_iff _ _).1 (rw (same v x e) here, named vs rest))
        ]
