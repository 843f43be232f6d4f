-- ===== src/Compat/Unchanged.antt =====
-- The comparison of a schema with itself, and of named entries with themselves.
use soothfast.Base.{
  ℕ, zero, suc, ◌≡◌, refl, sym, true, ◌&&◌, List, [], ◌∷◌, ◌++◌, map, none, some, Text, codes,
  Bool-cases, Option-cases, inl, inr, all, drop, strip_prefix, text_eq, &&_iff,
}
use soothfast.Base.Parse.{is_empty, split}
use soothfast.Base.Format.{replace}
use soothfast.Base.Json.{Value, get, index, as_str}
use soothfast.Base.JsonKeyed.{keyed, get-keyed}
use soothfast.Base.BTreeMap.{BTreeMap, get as map_get, insert, extend, get-insert, keys}
use soothfast.Base.BTreeSet.{from_list}
use soothfast.Compat.{Change, compare_key, compare_keys, flat, follow, resolve_pointer, deref}
use soothfast.Compat.Walk.{Direction, Seen, mem_pair, reference, walk_inside, walk}
use soothfast.Compat.Compare.{fuel, changes_of, compare}
use soothfast.Compat.Same.{Quiet, walk_inside-Quiet}

some-inj : {v w : Value} → some v ≡ some w → v ≡ w
some-inj h = cc

none-some : {v : Value} → none ≡ some v → ⊥
none-some h = cc

-- A step of a pointer.
abbrev unescape : Text → Text
unescape raw = replace (codes "~0") (codes "~") (replace (codes "~1") (codes "/") raw)

follow-keyed :
    (node : Value) (path : List Text) (v : Value)
    → keyed node ≡ true
    → follow node path ≡ some v
    → keyed v ≡ true
unfolding follow
follow-keyed node [] v k h = rw (sym (some-inj h)) k
follow-keyed node (raw ∷ path) v k h = elim (Bool-cases (is_empty raw)) [
  | inl e ↦ follow-keyed node path v k (rw (e, follow) at h)
  | inr e ↦ elim (Option-cases (get (unescape raw) node)) [
    | inl f ↦ absurd (none-some (rw (e, f, follow) at h))
    | inr (child, f) ↦
        follow-keyed child path v (get-keyed (unescape raw) node child k f) (rw (e, f, follow) at h)
  ]
]

pub deref-keyed : (doc v : Value) → keyed doc ≡ true → keyed v ≡ true → keyed (deref doc v) ≡ true
unfolding deref resolve_pointer
deref-keyed doc v d k = elim (Option-cases (as_str (index v (codes "$ref")))) [
  | inl e ↦ rw (e, deref) k
  | inr (pointer, e) ↦ elim (Option-cases (strip_prefix pointer (codes "#"))) [
    | inl f ↦ rw (e, f, deref, resolve_pointer) k
    | inr (path, f) ↦ elim (Option-cases (follow doc (drop 1 (split path b'/')))) [
      | inl g ↦ rw (e, f, g, deref, resolve_pointer) k
      | inr (target, g) ↦
          rw (e, f, g, deref, resolve_pointer)
            (follow-keyed doc (drop 1 (split path b'/')) target d g)
    ]
  ]
]

module _ (to_string : Value → Text) (doc : Value) (dir : Direction)
    (doc_keyed : keyed doc ≡ true) where
  walk-Quiet : (n : ℕ) → Quiet dir (walk to_string doc doc dir n)
  unfolding walk
  walk-Quiet zero place v changes seen h = refl
  walk-Quiet (suc n) place v changes seen h =
      let inside : (seen' : Seen)
          → changes_of changes (
              walk_inside to_string dir (walk to_string doc doc dir n) place (deref doc v)
                (deref doc v) (changes, seen'))
            ≡ changes =
        λ seen'.
          walk_inside-Quiet dir (walk to_string doc doc dir n) to_string place (deref doc v) changes
            seen' (walk-Quiet n) (deref-keyed doc v doc_keyed h) in
      elim (Bool-cases (is_empty (reference v) && is_empty (reference v))) [
        | inl e ↦ rw (e, walk) (inside seen)
        | inr e ↦ elim (Bool-cases (mem_pair (reference v, reference v) seen)) [
          | inl m ↦ rw (e, m, walk) refl
          | inr m ↦ rw (e, m, walk) (inside ((reference v, reference v) ∷ seen))
        ]
      ]

  -- A schema compared with itself in one document gives no change, in either direction, where no object
  -- has a key twice.
  pub compare_same :
      (changes : List Change) (place : Text) (v : Value)
      → keyed v ≡ true
      → compare to_string doc doc changes place v v dir ≡ changes
  unfolding compare
  compare_same changes place v h = walk-Quiet (fuel doc doc v v) place v changes [] h

-- Nothing is pushed for any of the keys.
pub flat_nothing :
    (f : Text → List Change) (ks : List Text) → ((k : Text) → f k ≡ []) → flat (map f ks) ≡ []
flat_nothing f [] h = refl
flat_nothing f (k ∷ ks) h = rw (h k) (flat_nothing f ks h)

-- Named entries compared with themselves.
pub compare_keys_same :
    (m : BTreeMap Value) (noun : Text) (both : Text → Value → Value → List Change)
    → ((k : Text) (v : Value) → map_get k m ≡ some v → both k v v ≡ [])
    → compare_keys m m noun both ≡ []
unfolding compare_keys compare_key
compare_keys_same m noun both h =
    flat_nothing (compare_key m m noun both) (from_list (keys m ++ keys m)) λ k.
      elim (Option-cases (map_get k m)) [
        | inl e ↦ rw (e, e, compare_key) refl
        | inr (v, e) ↦ rw (e, e, compare_key) (h k v e)
      ]

-- Every value of a map has no object with a key twice.
abbrev pub Keyed : BTreeMap Value → Type 0
Keyed m = (k : Text) (v : Value) → map_get k m ≡ some v → keyed v ≡ true

pub insert-Keyed :
    (k : Text) (v : Value) (m : BTreeMap Value) → keyed v ≡ true → Keyed m → Keyed (insert k v m)
insert-Keyed k v m h ms j w e = elim (Bool-cases (text_eq k j)) [
  | inl q ↦ rw (sym (some-inj (rw (get-insert k j v m, q) at e))) h
  | inr q ↦ ms j w (rw (get-insert k j v m, q) at e)
]

pub extend-Keyed :
    (m : BTreeMap Value) (es : List (Text × Value))
    → all (λ (e : Text × Value). keyed e.1) es ≡ true
    → Keyed m
    → Keyed (extend m es)
unfolding extend
extend-Keyed m [] h ms = ms
extend-Keyed m ((k, v) ∷ es) h ms =
    let (here, rest) = (&&_iff (keyed v) (all (λ (e : Text × Value). keyed e.1) es)).0 h in
    extend-Keyed (insert k v m) es rest (insert-Keyed k v m here ms)

pub Keyed-nil : Keyed []
unfolding map_get
Keyed-nil k v e = cc
