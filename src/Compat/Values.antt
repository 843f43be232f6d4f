-- ===== src/Compat/Values.antt =====
-- When a comparison of enumerated values, or of named entries, is compatible.
use soothfast.Base.{
  ◌≡◌, refl, sym, ap, fun_ext, ◌∙◌, Bool, true, false, ◌&&◌, List, [], ◌∷◌, ◌++◌, map, none, some,
  arith, if◌then◌else◌, Text, mem_text, text_eq, text_eq_iff, all, any-append, Bool-cases,
  Option-cases, inl, inr, Bool-eq_of_iff,
}
use soothfast.Base.Order.{text_cmp-eq}
use soothfast.Base.Parse.{is_empty}
use soothfast.Base.BTreeMap.{BTreeMap, get as map_get, keys}
use soothfast.Base.BTreeSet.{BTreeSet, insert, from_list}
use soothfast.Base.Json.{Value}
use soothfast.Compat.{
  Change, is_breaking, is_compatible, difference, values, gone, added, compare_enum, compare_key,
  compare_keys, flat,
}

-- Every value of `o` is one of `n`.
abbrev pub subset : BTreeSet → BTreeSet → Bool
subset o n = all (λ v. mem_text v n) o

pub is_compatible-append :
    (a b : List Change) → is_compatible (a ++ b) ≡ (is_compatible a && is_compatible b)
unfolding is_compatible
is_compatible-append a b = ground (arith, any-append (λ (c : Change). is_breaking c.severity) a b)

module _ (to_string : Value → Text) (place : Text) where
  is_compatible-gone :
      (o n : BTreeSet) → is_compatible (map (gone to_string place) (difference o n)) ≡ subset o n
  unfolding is_compatible difference
  is_compatible-gone [] n = refl
  is_compatible-gone (v ∷ o) n = ground (arith, is_compatible-gone o n)

  is_compatible-added : (vs : List Text) → is_compatible (map (added to_string place) vs) ≡ true
  unfolding is_compatible
  is_compatible-added [] = refl
  is_compatible-added (v ∷ vs) = is_compatible-added vs

  enum_of :
      (o n : BTreeSet)
      → is_compatible (
          if is_empty o && is_empty n
          then []
          else map (gone to_string place) (difference o n)
            ++ map (added to_string place) (difference n o))
        ≡ subset o n
  enum_of o n = elim (Bool-cases (is_empty o && is_empty n)) [
    | inl e ↦ rw e (none_of o (ground (arith, e)))
    | inr e ↦ rw e (
        is_compatible-append (map (gone to_string place) (difference o n)) _
        ∙ ground (arith, is_compatible-gone o n, is_compatible-added (difference n o)))
  ]
    where
      none_of : (s : BTreeSet) → is_empty s ≡ true → is_compatible [] ≡ subset s n
      none_of [] h = unfold is_compatible in refl
      none_of (v ∷ s) h = cc

  -- A change of the values that a schema accepts is compatible exactly when every value that was
  -- accepted still is.
  pub is_compatible-compare_enum :
      (old new : Value)
      → is_compatible (compare_enum to_string place old new)
        ≡ subset (values to_string old) (values to_string new)
  unfolding compare_enum
  is_compatible-compare_enum old new = enum_of (values to_string old) (values to_string new)

all-insert : (p : Text → Bool) (k : Text) (s : BTreeSet) → all p (insert k s) ≡ (p k && all p s)
unfolding insert
all-insert p k [] = refl
all-insert p k (j ∷ s) = ground (arith, all-insert p k s, text_cmp-eq k j)

all-from_list : (p : Text → Bool) (ts : List Text) → all p (from_list ts) ≡ all p ts
unfolding from_list
all-from_list p [] = refl
all-from_list p (t ∷ ts) = ground (arith, all-insert p t (from_list ts), all-from_list p ts)

all-append : (p : Text → Bool) (ts us : List Text) → all p (ts ++ us) ≡ (all p ts && all p us)
all-append p [] us = refl
all-append p (t ∷ ts) us = ground (arith, all-append p ts us)

all-true : (p : Text → Bool) (ts : List Text) → ((t : Text) → p t ≡ true) → all p ts ≡ true
all-true p [] h = refl
all-true p (t ∷ ts) h = ground (arith, h t, all-true p ts h)

all-get :
    (p : Text → Bool) (m : BTreeMap Value) (k : Text) (v : Value)
    → all p (keys m) ≡ true
    → map_get k m ≡ some v
    → p k ≡ true
unfolding map_get
all-get p [] k v h g = cc
all-get p ((j, w) ∷ m) k v h g = elim (Bool-cases (text_eq j k)) [
  | inl e ↦ let same : j ≡ k = (text_eq_iff j k).0 e in rw (sym same) (ground (arith, h))
  | inr e ↦ all-get p m k v (ground (arith, h)) (rw (e, map_get) at g)
]

pub is_compatible-flat :
    (f : Text → List Change) (ks : List Text)
    → is_compatible (flat (map f ks)) ≡ all (λ k. is_compatible (f k)) ks
is_compatible-flat f [] = unfold is_compatible in refl
is_compatible-flat f (k ∷ ks) =
    is_compatible-append (f k) (flat (map f ks))
    ∙ ap (λ b. is_compatible (f k) && b) (is_compatible-flat f ks)

module _ (old new : BTreeMap Value) (noun : Text) (both : Text → Value → Value → List Change) where
  -- What becomes of an entry: one that was there is still there, and its own comparison is compatible.
  abbrev pub entry_kept : Text → Bool
  entry_kept k = elim (map_get k old) [
    | none ↦ true
    | some o ↦ elim (map_get k new) [ none ↦ false | some n ↦ is_compatible (both k o n) ]
  ]

  is_compatible-compare_key :
      (k : Text) → is_compatible (compare_key old new noun both k) ≡ entry_kept k
  unfolding compare_key is_compatible
  is_compatible-compare_key k = elim (Option-cases (map_get k old)) [
    | inl e ↦ elim (Option-cases (map_get k new)) [
      | inl f ↦ rw (e, f, compare_key, entry_kept) refl
      | inr (n, f) ↦ rw (e, f, compare_key, entry_kept) refl
    ]
    | inr (o, e) ↦ elim (Option-cases (map_get k new)) [
      | inl f ↦ rw (e, f, compare_key, entry_kept) refl
      | inr (n, f) ↦ rw (e, f, compare_key, entry_kept) refl
    ]
  ]

  every : all entry_kept (keys old) ≡ true → (k : Text) → entry_kept k ≡ true
  every h k = elim (Option-cases (map_get k old)) [
    | inl e ↦ rw (e, entry_kept) refl
    | inr (v, e) ↦ all-get entry_kept old k v h e
  ]

  -- A change of named entries is compatible exactly when every entry that was there still is, and the
  -- comparison of its two values is compatible; added entries never matter.
  pub is_compatible-compare_keys :
      is_compatible (compare_keys old new noun both) ≡ all entry_kept (keys old)
  unfolding compare_keys
  is_compatible-compare_keys =
      is_compatible-flat (compare_key old new noun both) (from_list (keys old ++ keys new))
      ∙ ap (λ p. all p (from_list (keys old ++ keys new))) (fun_ext is_compatible-compare_key)
      ∙ all-from_list entry_kept (keys old ++ keys new)
      ∙ all-append entry_kept (keys old) (keys new)
      ∙ Bool-eq_of_iff _ _ (λ h. ground (arith, h))
          (λ h. ground (arith, h, all-true entry_kept (keys new) (every h)))
