-- ===== src/Compat/Compare.antt =====
-- `SchemaDiff::compare` of soothfast-spec/src/compat.rs: the walk with nothing seen yet, and fuel that is
-- enough for it.
use native.Mathlib.Nat.{mul-le-mul_right}
use soothfast.Base.{
  ℕ, zero, suc, ◌+◌, ◌*◌, ◌≤◌, ◌<◌, ◌≡◌, refl, true, ◌&&◌, List, [], ◌∷◌, ◌++◌, Option, none, some,
  arith, Text, mem_text, Bool-cases, inl, inr, length,
}
use soothfast.Base.Parse.{is_empty}
use soothfast.Base.Json.{Value}
use soothfast.Compat.{Change, deref}
use soothfast.Compat.Walk.{Direction, Seen, Walked, mem_pair, reference, walk}
use soothfast.Compat.Size.{size, texts, Within, deref-Part, deref_here, reference-mem, mem-append}
use soothfast.Compat.Pairs.{pairs, mem-pairs, unseen, unseen-cons, unseen_le}
use soothfast.Compat.Ends.{Done, Inner, walk_inside-Done}

-- Every text that a walk of the schema can meet, with the blank one of a schema that refers to nothing.
abbrev reachable : Value → Value → List Text
reachable doc v = [] ∷ (texts doc ++ texts v)

abbrev pub all_pairs : Value → Value → Value → Value → Seen
all_pairs old_doc new_doc old new = pairs (reachable old_doc old) (reachable new_doc new)

-- Each pair of references is followed once, and between two of them the old schema gets smaller.
abbrev pub fuel : Value → Value → Value → Value → ℕ
fuel old_doc new_doc old new =
    suc (length (all_pairs old_doc new_doc old new) * suc (size old_doc + size old) + size old)

abbrev pub changes_of : List Change → Option Walked → List Change
changes_of changes none = changes
changes_of changes (some w) = w.0

unfoldable pub compare :
    (Value → Text) → Value → Value → List Change → Text → Value → Value → Direction → List Change
unfolding size texts
compare to_string old_doc new_doc changes place old new dir =
    changes_of changes (
      walk to_string old_doc new_doc dir (fuel old_doc new_doc old new) place old new (changes, []))

-- Whether a schema is at most so large, and has only texts of the list.
abbrev Bounded : ℕ → List Text → Value → Type 0
Bounded s ts v = (size v ≤ s) × Within ts v

deref-Bounded :
    (s : ℕ) (ts : List Text) (doc v : Value)
    → Bounded s ts doc
    → Bounded s ts v
    → Bounded s ts (deref doc v)
deref-Bounded s ts doc v (a, f) (b, g) = elim (deref-Part doc v) [
  | inl (le, inside) ↦ (omega arith, λ t h. g t (inside t h))
  | inr (le, inside) ↦ (omega arith, λ t h. f t (inside t h))
]

deref-Within :
    (ts : List Text) (doc v : Value) → Within ts doc → Within ts v → Within ts (deref doc v)
deref-Within ts doc v f g = elim (deref-Part doc v) [
  | inl (le, inside) ↦ λ t h. g t (inside t h)
  | inr (le, inside) ↦ λ t h. f t (inside t h)
]

-- A reference is one of the texts, or blank.
reference-reachable :
    (ts : List Text) (v : Value)
    → mem_text [] ts ≡ true
    → Within ts v
    → mem_text (reference v) ts ≡ true
reference-reachable ts v b f = elim (Bool-cases (is_empty (reference v))) [
  | inl e ↦ let q : reference v ≡ [] = blank (reference v) e in rw q b
  | inr e ↦ f (reference v) (reference-mem v e)
]
  where
    blank : (t : Text) → is_empty t ≡ true → t ≡ []
    blank [] e = refl
    blank (c ∷ t) e = cc

reachable-doc : (doc v : Value) → Within (reachable doc v) doc
unfolding mem_text
reachable-doc doc v t h = ground (arith, mem-append t (texts doc) (texts v), h)

reachable_self : (doc v : Value) → Within (reachable doc v) v
unfolding mem_text
reachable_self doc v t h = ground (arith, mem-append t (texts doc) (texts v), h)

module _ (to_string : Value → Text) (old_doc new_doc : Value) (dir : Direction) where
  -- The bound on both sides of a walk: on the size of the old one, and on the texts of both.
  module _ (s : ℕ) (xs ys : List Text) where
    abbrev Enough : ℕ → Type 0
    Enough n =
        (place : Text) (old new : Value) (w : Walked)
        → Bounded s xs old
        → Within ys new
        → unseen (pairs xs ys) w.1 * suc s + size old < n
        → Done (pairs xs ys) (unseen (pairs xs ys) w.1)
            (walk to_string old_doc new_doc dir n place old new w)

    -- What is inside the two schemas then has enough as well.
    Enough-Inner :
        (n u : ℕ) (old new : Value)
        → Enough n
        → Bounded s xs old
        → Within ys new
        → u * suc s + size old ≤ n
        → Inner (pairs xs ys) dir (walk to_string old_doc new_doc dir n) old new u
    Enough-Inner n u old new enough (le, f) g h = λ place o x w lt inside inside' few.
        enough place o x w (omega (arith, lt, le), λ t m. f t (inside t m))
          (λ t m. g t (inside' t m)) (omega (arith, mul-le-mul_right (suc s) few, lt, h))

    module _ (old_bound : Bounded s xs old_doc) (new_within : Within ys new_doc)
        (blank_old : mem_text [] xs ≡ true) (blank_new : mem_text [] ys ≡ true) where
      walk-Done : (n : ℕ) → Enough n
      unfolding walk
      walk-Done zero place old new w b g lt = let no : ⊥ = omega (arith, lt) in absurd no
      walk-Done (suc n) place old new (changes, seen) b g lt =
          elim (Bool-cases (is_empty (reference old) && is_empty (reference new))) [
            | inl e ↦
                rw
                  (
                    e,
                    deref_here old_doc old (ground (arith, e)),
                    deref_here new_doc new (ground (arith, e)),
                    walk,
                  )
                  (walk_inside-Done (pairs xs ys) dir (walk to_string old_doc new_doc dir n) old new
                    to_string place (changes, seen) (unseen (pairs xs ys) seen)
                    (Enough-Inner n (unseen (pairs xs ys) seen) old new (walk-Done n) b g
                      (omega (arith, lt)))
                    (omega arith))
            | inr e ↦ elim (Bool-cases (mem_pair (reference old, reference new) seen)) [
              | inl m ↦ rw (e, m, walk) (_, refl, omega arith)
              | inr m ↦
                  let pair : Text × Text = (reference old, reference new) in
                  let fewer : suc (unseen (pairs xs ys) (pair ∷ seen)) ≤ unseen (pairs xs ys) seen =
                    unseen-cons pair (pairs xs ys) seen
                      (mem-pairs (reference old) (reference new) xs ys
                        (reference-reachable xs old blank_old b.1)
                        (reference-reachable ys new blank_new g))
                      m in
                  let to = deref-Bounded s xs old_doc old old_bound b in
                  let (w, q, le) =
                    walk_inside-Done (pairs xs ys) dir (walk to_string old_doc new_doc dir n)
                      (deref old_doc old) (deref new_doc new) to_string place (changes, pair ∷ seen)
                      (unseen (pairs xs ys) (pair ∷ seen))
                      (Enough-Inner n (unseen (pairs xs ys) (pair ∷ seen)) (deref old_doc old)
                        (deref new_doc new) (walk-Done n) to
                        (deref-Within ys new_doc new new_within g)
                        (omega (arith, lt, to.0, mul-le-mul_right (suc s) fewer)))
                      (omega arith) in
                  rw (e, m, walk) (w, q, omega (arith, le, fewer))
            ]
          ]

  -- A comparison is what its walk comes to, whatever the two documents and the two schemas refer to: the
  -- fuel is enough for it.
  pub compare_ends :
      (changes : List Change) (place : Text) (old new : Value)
      → (seen : Seen) × (walk to_string old_doc new_doc dir
            (fuel old_doc new_doc old new)
            place
            old
            new
            (changes, [])
          ≡ some (compare to_string old_doc new_doc changes place old new dir, seen))
  unfolding compare size texts mem_text
  compare_ends changes place old new =
      let xs = reachable old_doc old in
      let ys = reachable new_doc new in
      let ((after, seen), e, le) =
        walk-Done (size old_doc + size old) xs ys (omega arith, reachable-doc old_doc old)
          (reachable-doc new_doc new) refl refl (fuel old_doc new_doc old new) place old new
          (changes, []) (omega arith, reachable_self old_doc old) (reachable_self new_doc new)
          (omega (
            arith,
            mul-le-mul_right (suc (size old_doc + size old)) (unseen_le (pairs xs ys) []),
          )) in
      rw (e, compare) (seen, refl)
