-- ===== src/Dialect/Graphql/Nullability.antt =====
-- What `compare_field` says of a reference to a type whose marks change, against references as trees.
use soothfast.Base.{
  suc, ◌≡◌, refl, sym, ap, ◌∙◌, ◌⊎◌, Bool, true, false, not, ◌∷◌, arith, Text, text_eq, text_eq_iff,
  Bool-cases, inl, inr,
}
use soothfast.Compat.{is_breaking, is_compatible}
use soothfast.Compat.Walk.{Direction, request, response}
use soothfast.Dialect.Graphql.{shape, non_null, tightened, nullability_severity, compare_types}
use soothfast.Dialect.Graphql.TypeRef.{
  TypeRef, named, list_of, mark, print, plain, keeps, non_null-print, count, marks-print,
  shape-append, shape-keeps, count-keeps, outer-keeps,
}

same-type :
    (place : Text) (r s : TypeRef)
    → plain r ≡ true
    → plain s ≡ true
    → keeps r s ≡ true
    → (print r ≡ print s)
      ⊎ ((tightened (print r) (print s) ≡ true) × (tightened (print s) (print r) ≡ false))
unfolding tightened
same-type place r s h k e = elim (count-keeps r s e) [
  | inl q ↦ inl (ap print q)
  | inr lt ↦ inr (
    rw (non_null-print r h, non_null-print s k, marks-print r h, marks-print s k)
        (ground (arith, lt)),
    rw (non_null-print r h, non_null-print s k, marks-print r h, marks-print s k)
        (ground (arith, lt, outer-keeps r s e)),
  )
]

-- References of which one ends in a mark and the other does not.
apart_by_mark :
    (s t : Text)
    → non_null s ≡ false
    → non_null t ≡ true
    → (text_eq s t ≡ false) × (text_eq t s ≡ false)
apart_by_mark s t h k = (
  elim (Bool-cases (text_eq s t)) [
    | inl e ↦ absurd (differ (sym h ∙ ap non_null ((text_eq_iff s t).0 e) ∙ k))
    | inr e ↦ e
  ],
  elim (Bool-cases (text_eq t s)) [
    | inl e ↦ absurd (differ (sym h ∙ ap non_null (sym ((text_eq_iff t s).0 e)) ∙ k))
    | inr e ↦ e
  ],
)
  where
    differ : false ≡ true → ⊥
    differ q = cc

-- Two references to the same type that differ.
pub is_compatible-changed :
    (place ot nt : Text) (dir : Direction)
    → text_eq ot nt ≡ false
    → shape ot ≡ shape nt
    → is_compatible (compare_types place ot nt dir)
      ≡ not (is_breaking (nullability_severity dir (tightened ot nt)))
unfolding compare_types is_compatible
is_compatible-changed place ot nt dir n q =
    rw (n, q, (text_eq_iff (shape nt) (shape nt)).1 refl) (ground arith)

-- Between two references to the same type, where the second one has every mark of the first: adding the
-- marks is compatible in what a client reads and taking them away is in what it sends, each the other way
-- round only if the two are the same.
pub is_compatible-compare_types :
    (place : Text) (r s : TypeRef)
    → plain r ≡ true
    → plain s ≡ true
    → keeps r s ≡ true
    → (is_compatible (compare_types place (print r) (print s) response) ≡ true)
      × (is_compatible (compare_types place (print s) (print r) request) ≡ true)
      × (is_compatible (compare_types place (print s) (print r) response)
          ≡ text_eq (print s) (print r))
      × (is_compatible (compare_types place (print r) (print s) request)
          ≡ text_eq (print r) (print s))
unfolding compare_types is_compatible
is_compatible-compare_types place r s h k e = elim (same-type place r s h k e) [
  | inl q ↦ rw (q, (text_eq_iff (print s) (print s)).1 refl) (refl, refl, refl, refl)
  | inr (up, down) ↦ elim (Bool-cases (text_eq (print r) (print s))) [
    | inl q ↦
        let p : print r ≡ print s = (text_eq_iff (print r) (print s)).0 q in
        rw (p, (text_eq_iff (print s) (print s)).1 refl) (refl, refl, refl, refl)
    | inr n ↦
        let m : text_eq (print s) (print r) ≡ false =
          ground (arith, n, text_eq_iff (print s) (print r), text_eq_iff (print r) (print s)) in
        let q = shape-keeps r s e in
        (
          is_compatible-changed place (print r) (print s) response n q ∙ rw up refl,
          is_compatible-changed place (print s) (print r) request m (sym q) ∙ rw down refl,
          is_compatible-changed place (print s) (print r) response m (sym q) ∙ rw (down, m) refl,
          is_compatible-changed place (print r) (print s) request n q ∙ rw (up, n) refl,
        )
  ]
]

-- The mark of a reference at its end, and none there.
abbrev pub with_mark : Bool → TypeRef → TypeRef
with_mark b (named t c) = named t b
with_mark b (list_of r c) = list_of r b

plain-with_mark : (b : Bool) (r : TypeRef) → plain r ≡ true → plain (with_mark b r) ≡ true
unfolding plain
plain-with_mark b (named t c) h = h
plain-with_mark b (list_of r c) h = h

shape-with_mark :
    (r : TypeRef) → shape (print (with_mark true r)) ≡ shape (print (with_mark false r))
unfolding shape print
shape-with_mark (named t c) = shape-append t (mark true) ∙ sym (shape-append t (mark false))
shape-with_mark (list_of r c) =
    ap (λ t. b'[' ∷ t)
      (shape-append (print r) (b']' ∷ mark true) ∙ sym (shape-append (print r) (b']' ∷ mark false)))

count-with_mark : (r : TypeRef) → count (with_mark true r) ≡ suc (count (with_mark false r))
count-with_mark (named t c) = refl
count-with_mark (list_of r c) = omega arith

keeps-with_mark : (r : TypeRef) → keeps (with_mark true r) (with_mark false r) ≡ false
unfolding keeps
keeps-with_mark (named t c) = ground arith
keeps-with_mark (list_of r c) = ground arith

shape-moved :
    (r : TypeRef)
    → shape (print (list_of (with_mark true r) false))
      ≡ shape (print (list_of (with_mark false r) true))
unfolding print shape
shape-moved r =
    ap (λ t. b'[' ∷ t)
      (shape-append (print (with_mark true r)) (b']' ∷ mark false)
        ∙ rw (shape-with_mark r)
            (sym (shape-append (print (with_mark false r)) (b']' ∷ mark true))))

-- A mark that moves from the members of a list to the list itself takes from a client what it was
-- promised of the members, and one that moves from the list to its members asks more of them; the
-- comparison calls the first compatible in what a client reads, and the second in what it sends.
pub moved_mark :
    (place : Text) (r : TypeRef)
    → plain r ≡ true
    → (keeps (list_of (with_mark true r) false) (list_of (with_mark false r) true) ≡ false)
      × (is_compatible (
            compare_types place
              (print (list_of (with_mark true r) false))
              (print (list_of (with_mark false r) true))
              response)
          ≡ true)
      × (is_compatible (
            compare_types place
              (print (list_of (with_mark false r) true))
              (print (list_of (with_mark true r) false))
              request)
          ≡ true)
unfolding keeps tightened plain
moved_mark place r h =
    let o = list_of (with_mark true r) false in
    let n = list_of (with_mark false r) true in
    let po : plain o ≡ true = plain-with_mark true r h in
    let pn : plain n ≡ true = plain-with_mark false r h in
    let up : tightened (print o) (print n) ≡ true =
      rw (non_null-print o po, non_null-print n pn, tightened) refl in
    let level : tightened (print n) (print o) ≡ false =
      rw (non_null-print o po, marks-print o po, marks-print n pn, tightened)
        (ground (arith, count-with_mark r)) in
    let (apart, apart') =
      apart_by_mark (print o) (print n) (non_null-print o po) (non_null-print n pn) in
    (
      rw (keeps-with_mark r, keeps) refl,
      is_compatible-changed place (print o) (print n) response apart (shape-moved r) ∙ rw up refl,
      is_compatible-changed place (print n) (print o) request apart' (sym (shape-moved r))
          ∙ rw level refl,
    )
