-- ===== src/Unmeasured/Reading.antt =====
-- How the entries of a document are read: from its one key, and from a list's head.
use soothfast.Base.{
  ◌≡◌, refl, sym, ap, ◌∙◌, Bool, true, false, not, List, [], ◌∷◌, ◌++◌, map, Option, none, some,
  arith, Text, codes, text_eq, keep, All, Bool-cases, Option-cases, inl, inr, ◌⊎◌,
}
use soothfast.Base.Options.{Result, ok, err}
use soothfast.Base.Parse.{is_empty}
use soothfast.Base.Json.{
  Value, Items, null, bool, uint, negint, float, str, arr, obj, get, index, set_key, array, as_str,
  as_array, items, items-items_of, get-set_key,
}
use soothfast.Unmeasured.{
  Unmeasured, not_a_list, to_json, from_json, is_legacy, is_text, ReadError, read_entries, read,
  stays,
}
use soothfast.Unmeasured.Written.{IsNamed, from_json-package, read_entries-to_json}

-- How a list is read from its head.
abbrev Head : Value → List Value → List Unmeasured → Type 0
Head v vs us =
    ((is_legacy v ≡ true) × (read_entries vs ≡ ok us))
    ⊎ ((u : Unmeasured) × (ws : List Unmeasured) × (is_legacy v ≡ false)
        × (from_json v ≡ some u)
        × (read_entries vs ≡ ok ws)
        × (us ≡ u ∷ ws))

Result-cases :
    (r : Result ReadError (List Unmeasured))
    → ((us : List Unmeasured) × (r ≡ ok us)) ⊎ ((e : ReadError) × (r ≡ err e))
Result-cases (ok us) = inl (us, refl)
Result-cases (err e) = inr (e, refl)

ok-inj :
    {us ws : List Unmeasured}
    → ◌≡◌ {A = Result ReadError (List Unmeasured)} (ok us) (ok ws)
    → us ≡ ws
ok-inj h = cc

err-ok : {e : ReadError} {us : List Unmeasured} → err e ≡ ok us → ⊥
err-ok h = cc

read_entries-Head :
    (v : Value) (vs : List Value) (us : List Unmeasured)
    → read_entries (v ∷ vs) ≡ ok us
    → Head v vs us
unfolding read_entries
read_entries-Head v vs us h = elim (Bool-cases (is_legacy v)) [
  | inl e ↦ inl (e, rw (e, read_entries) at h)
  | inr e ↦ elim (Option-cases (from_json v)) [
    | inl f ↦ absurd (err-ok (rw (e, f, read_entries) at h))
    | inr (u, f) ↦ elim (Result-cases (read_entries vs)) [
      | inl (ws, g) ↦ inr (u, ws, e, f, g, sym (ok-inj (rw (e, f, g, read_entries) at h)))
      | inr (x, g) ↦ absurd (err-ok (rw (e, f, g, read_entries) at h))
    ]
  ]
]

not_blank : (n : Text) → is_text (some n) [] ≡ false → is_empty n ≡ false
unfolding text_eq
not_blank [] h = cc
not_blank (c ∷ n) h = refl

named : (v : Value) (u : Unmeasured) → is_legacy v ≡ false → from_json v ≡ some u → IsNamed u
unfolding is_legacy
named v u e f =
    let t : is_text (as_str (index v (codes "package"))) [] ≡ false = ground arith in
    not_blank u.package_name (rw (from_json-package v u f) at t)

read_entries-IsNamed :
    (vs : List Value) (us : List Unmeasured) → read_entries vs ≡ ok us → All IsNamed us
unfolding read_entries
read_entries-IsNamed [] us h = let e : us ≡ [] = sym (ok-inj h) in rw e tt
read_entries-IsNamed (v ∷ vs) us h = elim (read_entries-Head v vs us h) [
  | inl (_, g) ↦ read_entries-IsNamed vs us g
  | inr (u, ws, e, f, g, q) ↦ rw q (named v u e f, read_entries-IsNamed vs ws g)
]

-- Clearing a list of entries clears what is read from it.
pub read_entries-keep :
    (gone : Text → Bool) (vs : List Value) (us : List Unmeasured)
    → read_entries vs ≡ ok us
    → read_entries (keep (stays gone) vs)
      ≡ ok (keep (λ (u : Unmeasured). not (gone u.package_name)) us)
unfolding read_entries
read_entries-keep gone [] us h = let e : us ≡ [] = sym (ok-inj h) in rw e refl
read_entries-keep gone (v ∷ vs) us h = elim (read_entries-Head v vs us h) [
  | inl (e, g) ↦ rw e (read_entries-keep gone vs us g)
  | inr (u, ws, e, f, g, q) ↦
      rw (q, e, from_json-package v u f)
        (elim (Bool-cases (gone u.package_name)) [
          | inl k ↦ rw k (read_entries-keep gone vs ws g)
          | inr k ↦ rw (k, e, f, read_entries-keep gone vs ws g, read_entries) refl
        ])
]

-- Only the one key of a document is read.
pub read-cong :
    (a b : Value) → get (codes "unmeasured") a ≡ get (codes "unmeasured") b → read a ≡ read b
unfolding read
read-cong a b e = rw (e, read) refl

-- `read` of the value under the key.
abbrev pub read_at : Option Value → Result ReadError (List Unmeasured)
read_at none = ok []
read_at (some v) = elim (as_array v) [ none ↦ err not_a_list | some vs ↦ read_entries vs ]

pub read-read_at : (doc : Value) → read doc ≡ read_at (get (codes "unmeasured") doc)
unfolding read
read-read_at doc = elim (Option-cases (get (codes "unmeasured") doc)) [
  | inl e ↦ rw (e, read) refl
  | inr (v, e) ↦ rw (e, read) refl
]

-- A value that is read is missing or a list.
abbrev pub Listed : Option Value → List Unmeasured → Type 0
Listed o us =
    ((o ≡ none) × (us ≡ []))
    ⊎ ((vs : Items) × (o ≡ some (arr vs)) × (read_entries (items vs) ≡ ok us))

read_at-Listed : (o : Option Value) (us : List Unmeasured) → read_at o ≡ ok us → Listed o us
read_at-Listed none us h = inl (refl, sym (ok-inj h))
read_at-Listed (some (arr vs)) us h = inr (vs, refl, h)
read_at-Listed (some null) us h = absurd (err-ok h)
read_at-Listed (some (bool b)) us h = absurd (err-ok h)
read_at-Listed (some (uint n)) us h = absurd (err-ok h)
read_at-Listed (some (negint n)) us h = absurd (err-ok h)
read_at-Listed (some (float n)) us h = absurd (err-ok h)
read_at-Listed (some (str s)) us h = absurd (err-ok h)
read_at-Listed (some (obj fs)) us h = absurd (err-ok h)

pub read-Listed :
    (doc : Value) (us : List Unmeasured)
    → read doc ≡ ok us
    → Listed (get (codes "unmeasured") doc) us
read-Listed doc us h = read_at-Listed _ us (sym (read-read_at doc) ∙ h)

pub read-IsNamed : (doc : Value) (us : List Unmeasured) → read doc ≡ ok us → All IsNamed us
read-IsNamed doc us h = elim (read-Listed doc us h) [
  | inl (_, e) ↦ rw e tt
  | inr (vs, _, g) ↦ read_entries-IsNamed (items vs) us g
]

IsNamed-append :
    (us es : List Unmeasured) → All IsNamed us → All IsNamed es → All IsNamed (us ++ es)
IsNamed-append [] es a b = b
IsNamed-append (u ∷ us) es a b = (a.0, IsNamed-append us es a.1 b)

map-append_to_json :
    (us es : List Unmeasured) → map to_json us ++ map to_json es ≡ map to_json (us ++ es)
map-append_to_json [] es = refl
map-append_to_json (u ∷ us) es = rw (map-append_to_json us es)

pub read-written :
    (doc : Value) (us es : List Unmeasured)
    → All IsNamed us
    → All IsNamed es
    → read (set_key doc (codes "unmeasured") (array (map to_json us ++ map to_json es)))
      ≡ ok (us ++ es)
unfolding text_eq
read-written doc us es a b =
    read-read_at _
    ∙ ap read_at (
        get-set_key doc (codes "unmeasured") (codes "unmeasured")
          (array (map to_json us ++ map to_json es)))
    ∙ ap read_entries (items-items_of (map to_json us ++ map to_json es) ∙ map-append_to_json us es)
    ∙ read_entries-to_json (us ++ es) (IsNamed-append us es a b)
