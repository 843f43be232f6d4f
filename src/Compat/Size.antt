-- ===== src/Compat/Size.antt =====
-- How large a JSON value is, and which texts it holds: what bounds the walk over two schemas.
use soothfast.Base.{
  ℕ, suc, ◌+◌, ◌≤◌, ◌<◌, ◌≡◌, refl, sym, true, false, ◌||◌, List, [], ◌∷◌, ◌++◌, none, some, arith,
  Text, codes, text_eq, mem_text, text_eq_iff, Bool-cases, inl, inr, Option-cases, ◌⊎◌, drop,
  strip_prefix,
}
use soothfast.Base.Parse.{is_empty, split}
use soothfast.Base.Json.{
  Value, null, bool, uint, negint, float, str, arr, obj, Items, nil, cons, Fields, end, field, get,
  get_field, index, as_str, is_null,
}
use soothfast.Base.Format.{replace}
use soothfast.Compat.{follow, resolve_pointer, deref}
use soothfast.Compat.Walk.{reference}

unfoldable mutual
  pub size : Value → ℕ
  size null = 0
  size (bool b) = 1
  size (uint n) = 1
  size (negint n) = 1
  size (float n) = 1
  size (str s) = 1
  size (arr vs) = suc (size_items vs)
  size (obj fs) = suc (size_fields fs)

  size_items : Items → ℕ
  size_items nil = 0
  size_items (cons v vs) = size v + size_items vs

  pub size_fields : Fields → ℕ
  size_fields end = 0
  size_fields (field k v fs) = size v + size_fields fs

unfoldable mutual
  pub texts : Value → List Text
  texts null = []
  texts (bool b) = []
  texts (uint n) = []
  texts (negint n) = []
  texts (float n) = []
  texts (str s) = s ∷ []
  texts (arr vs) = texts_items vs
  texts (obj fs) = texts_fields fs

  texts_items : Items → List Text
  texts_items nil = []
  texts_items (cons v vs) = texts v ++ texts_items vs

  pub texts_fields : Fields → List Text
  texts_fields end = []
  texts_fields (field k v fs) = texts v ++ texts_fields fs

-- Every text that a value holds is one of the list.
abbrev pub Within : List Text → Value → Type 0
Within ts v = (t : Text) → mem_text t (texts v) ≡ true → mem_text t ts ≡ true

pub mem-append :
    (t : Text) (xs ys : List Text) → mem_text t (xs ++ ys) ≡ (mem_text t xs || mem_text t ys)
unfolding mem_text
mem-append t [] ys = refl
mem-append t (x ∷ xs) ys = ground (arith, mem-append t xs ys)

-- A part of a value.
abbrev pub Part : Value → Value → Type 0
Part v w = (size v ≤ size w) × Within (texts w) v

Part-refl : (v : Value) → Part v v
Part-refl v = (omega arith, λ t h. h)

Part-null : (v : Value) → Part null v
unfolding size texts mem_text
Part-null v = (omega arith, λ t h. cc)

some-inj : {v w : Value} → some v ≡ some w → v ≡ w
some-inj h = cc

get_field-Part :
    (k : Text) (fs : Fields) (v : Value)
    → get_field k fs ≡ some v
    → (size v ≤ size_fields fs)
      × ((t : Text) → mem_text t (texts v) ≡ true → mem_text t (texts_fields fs) ≡ true)
unfolding get_field size texts
get_field-Part k end v h = cc
get_field-Part k (field j w fs) v h = elim (Bool-cases (text_eq j k)) [
  | inl e ↦
      let q : w ≡ v = some-inj (rw e at h) in
      rw (sym q) (omega arith, λ t m. ground (arith, m, mem-append t (texts w) (texts_fields fs)))
  | inr e ↦
      let (le, inside) = get_field-Part k fs v (rw (e, get_field) at h) in
      (
        omega (arith, le),
        λ t m. ground (arith, inside t m, mem-append t (texts w) (texts_fields fs)),
      )
]

pub get-Part : (k : Text) (w v : Value) → get k w ≡ some v → (size v < size w) × Within (texts w) v
unfolding get size texts
get-Part k (obj fs) v h = let (le, inside) = get_field-Part k fs v h in (omega (arith, le), inside)
get-Part k null v h = cc
get-Part k (bool b) v h = cc
get-Part k (uint n) v h = cc
get-Part k (negint n) v h = cc
get-Part k (float n) v h = cc
get-Part k (str s) v h = cc
get-Part k (arr vs) v h = cc

positive : (w : Value) → is_null w ≡ false → size null < size w
unfolding size
positive null n = cc
positive (bool b) n = omega arith
positive (uint k) n = omega arith
positive (negint k) n = omega arith
positive (float k) n = omega arith
positive (str s) n = omega arith
positive (arr vs) n = omega arith
positive (obj fs) n = omega arith

-- A member of a value is a smaller part, except that a null has only null.
pub index-Part :
    (k : Text) (w : Value) → Part (index w k) w × (is_null w ≡ false → size (index w k) < size w)
unfolding index
index-Part k w = elim (Option-cases (get k w)) [
  | inl e ↦ rw (e, index) (Part-null w, λ n. positive w n)
  | inr (v, e) ↦
      let (lt, inside) = get-Part k w v e in rw (e, index) ((omega (arith, lt), inside), λ n. lt)
]

pub Part-trans : (u v w : Value) → Part u v → Part v w → Part u w
Part-trans u v w (a, f) (b, g) = (omega arith, λ t h. g t (f t h))

none-some : {v : Value} → none ≡ some v → ⊥
none-some h = cc

str-mem : (w : Value) (s : Text) → as_str w ≡ some s → mem_text s (texts w) ≡ true
unfolding texts mem_text
str-mem (str r) s e = ground (arith, text_eq_iff r s)
str-mem null s e = cc
str-mem (bool b) s e = cc
str-mem (uint n) s e = cc
str-mem (negint n) s e = cc
str-mem (float n) s e = cc
str-mem (arr vs) s e = cc
str-mem (obj fs) s e = cc

-- A step of a pointer.
abbrev unescape : Text → Text
unescape raw = replace (codes "~0") (codes "~") (replace (codes "~1") (codes "/") raw)

follow-Part :
    (node : Value) (path : List Text) (v : Value) → follow node path ≡ some v → Part v node
unfolding follow
follow-Part node [] v h = rw (some-inj h) (Part-refl v)
follow-Part node (raw ∷ path) v h = elim (Bool-cases (is_empty raw)) [
  | inl e ↦ follow-Part node path v (rw (e, follow) at h)
  | inr e ↦ elim (Option-cases (get (unescape raw) node)) [
    | inl f ↦ absurd (none-some (rw (e, f, follow) at h))
    | inr (child, f) ↦
        let (lt, inside) = get-Part (unescape raw) node child f in
        Part-trans v child node (follow-Part child path v (rw (e, f, follow) at h))
          (omega (arith, lt), inside)
  ]
]

-- A schema that refers to another is read there, or is left where the reference leads nowhere.
pub deref-Part : (doc v : Value) → Part (deref doc v) v ⊎ Part (deref doc v) doc
unfolding deref resolve_pointer
deref-Part doc v = elim (Option-cases (as_str (index v (codes "$ref")))) [
  | inl e ↦ rw (e, deref) (inl (Part-refl v))
  | inr (pointer, e) ↦ elim (Option-cases (strip_prefix pointer (codes "#"))) [
    | inl f ↦ rw (e, f, deref, resolve_pointer) (inl (Part-refl v))
    | inr (path, f) ↦ elim (Option-cases (follow doc (drop 1 (split path b'/')))) [
      | inl g ↦ rw (e, f, g, deref, resolve_pointer) (inl (Part-refl v))
      | inr (target, g) ↦
          rw (e, f, g, deref, resolve_pointer)
            (inr (follow-Part doc (drop 1 (split path b'/')) target g))
    ]
  ]
]

pub deref_here : (doc v : Value) → is_empty (reference v) ≡ true → deref doc v ≡ v
unfolding deref resolve_pointer reference strip_prefix
deref_here doc v h = elim (Option-cases (as_str (index v (codes "$ref")))) [
  | inl e ↦ rw (e, deref) refl
  | inr (pointer, e) ↦ rw (e, deref) (blank pointer (rw (e, reference) at h))
]
  where
    blank :
        (pointer : Text)
        → is_empty pointer ≡ true
        → (elim (resolve_pointer doc pointer) [ some target ↦ target | none ↦ v ]) ≡ v
    blank [] q = refl
    blank (c ∷ s) q = cc

-- A reference is one of the texts of its schema.
pub reference-mem :
    (v : Value) → is_empty (reference v) ≡ false → mem_text (reference v) (texts v) ≡ true
unfolding reference
reference-mem v h = elim (Option-cases (as_str (index v (codes "$ref")))) [
  | inl e ↦ absurd (filled (rw (e, reference) at h))
  | inr (s, e) ↦
      rw (e, reference) ((index-Part (codes "$ref") v).0.1 s (str-mem (index v (codes "$ref")) s e))
]
  where
    filled : true ≡ false → ⊥
    filled q = cc
