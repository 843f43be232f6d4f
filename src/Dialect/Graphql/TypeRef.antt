-- ===== src/Dialect/Graphql/TypeRef.antt =====
-- References to types as trees, and what the printed ones come to under `shape`, `non_null` and the count
-- of their marks.
use soothfast.Base.{
  ℕ, ◌+◌, ◌<◌, ◌≡◌, refl, sym, ap, ◌∙◌, ◌⊎◌, Bool, true, false, not, ◌&&◌, ◌||◌, [], ◌∷◌, ◌++◌,
  append-nil, keep, length-append, arith, Text, text_eq, text_eq_iff, Bool-cases, inl, inr, &&_iff,
}
use soothfast.Dialect.Graphql.{is_mark, shape, marks, non_null}

-- A reference: a name or a list, and whether it may be null.
pub data TypeRef : Type 0 where
  named : Text → Bool → TypeRef
  list_of : TypeRef → Bool → TypeRef

abbrev pub mark : Bool → Text
mark true = b'!' ∷ []
mark false = []

unfoldable pub print : TypeRef → Text
print (named t b) = t ++ mark b
print (list_of r b) = b'[' ∷ (print r ++ (b']' ∷ mark b))

-- The names of a reference have no mark in them.
unfoldable pub plain : TypeRef → Bool
plain (named t b) = text_eq (keep is_mark t) []
plain (list_of r b) = plain r

abbrev pub is_non_null : TypeRef → Bool
is_non_null (named t b) = b
is_non_null (list_of r b) = b

-- The second reference has every mark of the first, and differs from it in nothing else.
unfoldable pub keeps : TypeRef → TypeRef → Bool
keeps (named t b) (named u c) = text_eq t u && (not b || c)
keeps (list_of r b) (list_of s c) = keeps r s && (not b || c)
keeps (named t b) (list_of s c) = false
keeps (list_of r b) (named u c) = false

keep-append : (p : ℕ → Bool) (s t : Text) → keep p (s ++ t) ≡ keep p s ++ keep p t
keep-append p [] t = refl
keep-append p (c ∷ s) t = ground (arith, keep-append p s t)

-- A text without marks does not end in one.
non_null-plain : (t : Text) → keep is_mark t ≡ [] → non_null t ≡ false
unfolding non_null
non_null-plain [] h = refl
non_null-plain (c ∷ []) h = ground (arith, h)
non_null-plain (c ∷ d ∷ t) h = elim (Bool-cases (is_mark c)) [
  | inl e ↦ absurd (filled (rw e at h))
  | inr e ↦ non_null-plain (d ∷ t) (rw e at h)
]
  where
    filled : {c : ℕ} {s : Text} → (c ∷ s) ≡ [] → ⊥
    filled q = cc

non_null-end : (s : Text) (c : ℕ) (t : Text) → non_null (s ++ (c ∷ t)) ≡ non_null (c ∷ t)
unfolding non_null
non_null-end [] c t = refl
non_null-end (d ∷ []) c t = refl
non_null-end (d ∷ e ∷ s) c t = non_null-end (e ∷ s) c t

pub non_null-print : (r : TypeRef) → plain r ≡ true → non_null (print r) ≡ is_non_null r
unfolding print plain non_null
non_null-print (named t true) h = non_null-end t b'!' []
non_null-print (named t false) h =
    rw (append-nil t) (non_null-plain t ((text_eq_iff (keep is_mark t) []).0 h))
non_null-print (list_of r true) h = non_null-end (b'[' ∷ print r) b']' (b'!' ∷ [])
non_null-print (list_of r false) h = non_null-end (b'[' ∷ print r) b']' []

-- How many marks there are.
abbrev one : Bool → ℕ
one true = 1
one false = 0

abbrev pub count : TypeRef → ℕ
count (named t b) = one b
count (list_of r b) = count r + one b

marks-append : (s t : Text) → marks (s ++ t) ≡ marks s + marks t
unfolding marks
marks-append s t = rw (keep-append is_mark s t) (length-append (keep is_mark s) (keep is_mark t))

marks-mark : (b : Bool) → marks (mark b) ≡ one b
unfolding marks
marks-mark true = refl
marks-mark false = refl

pub marks-print : (r : TypeRef) → plain r ≡ true → marks (print r) ≡ count r
unfolding print plain marks
marks-print (named t b) h =
    marks-append t (mark b)
    ∙ rw ((text_eq_iff (keep is_mark t) []).0 h) (rw (marks-mark b) (omega arith))
marks-print (list_of r b) h =
    marks-append (print r) (b']' ∷ mark b) ∙ rw (marks-print r h) (rw (marks-mark b) refl)

pub shape-append : (s t : Text) → shape (s ++ t) ≡ shape s ++ shape t
unfolding shape
shape-append s t = keep-append (λ c. not (is_mark c)) s t

shape-mark : (b : Bool) → shape (mark b) ≡ []
unfolding shape
shape-mark true = refl
shape-mark false = refl

pub shape-keeps : (r s : TypeRef) → keeps r s ≡ true → shape (print r) ≡ shape (print s)
unfolding keeps print shape
shape-keeps (named t b) (named u c) h =
    let same : t ≡ u = (text_eq_iff t u).0 ((&&_iff (text_eq t u) (not b || c)).0 h).0 in
    rw same (
      shape-append u (mark b)
      ∙ rw (shape-mark b) (sym (shape-append u (mark c) ∙ rw (shape-mark c) refl)))
shape-keeps (list_of r b) (list_of s c) h =
    ap (λ t. b'[' ∷ t)
      (shape-append (print r) (b']' ∷ mark b)
        ∙ rw (shape-keeps r s ((&&_iff (keeps r s) (not b || c)).0 h).0, shape-mark b)
            (sym (shape-append (print s) (b']' ∷ mark c) ∙ rw (shape-mark c) refl)))
shape-keeps (named t b) (list_of s c) h = cc
shape-keeps (list_of r b) (named u c) h = cc

flag : (b c : Bool) → (not b || c) ≡ true → (b ≡ c) ⊎ (one b < one c)
flag true true h = inl refl
flag true false h = cc
flag false true h = inr (omega arith)
flag false false h = inl refl

pub count-keeps : (r s : TypeRef) → keeps r s ≡ true → (r ≡ s) ⊎ (count r < count s)
unfolding keeps
count-keeps (named t b) (named u c) h =
    let (e, f) = (&&_iff (text_eq t u) (not b || c)).0 h in
    elim (flag b c f) [
      | inl same ↦ let name : t ≡ u = (text_eq_iff t u).0 e in rw (name, same) (inl refl)
      | inr lt ↦ inr lt
    ]
count-keeps (list_of r b) (list_of s c) h =
    let (e, f) = (&&_iff (keeps r s) (not b || c)).0 h in
    elim (count-keeps r s e) [
      | inl inner ↦ elim (flag b c f) [
        | inl same ↦ rw (inner, same) (inl refl)
        | inr lt ↦ inr (let q : count r ≡ count s = ap count inner in omega (arith, q, lt))
      ]
      | inr few ↦ inr (elim (flag b c f) [
        | inl same ↦ let q : one b ≡ one c = ap one same in omega (arith, few, q)
        | inr lt ↦ omega (arith, few, lt)
      ])
    ]
count-keeps (named t b) (list_of s c) h = cc
count-keeps (list_of r b) (named u c) h = cc

pub outer-keeps :
    (r s : TypeRef) → keeps r s ≡ true → (is_non_null r && not (is_non_null s)) ≡ false
unfolding keeps
outer-keeps (named t b) (named u c) h = ground (arith, h)
outer-keeps (list_of r b) (list_of s c) h = ground (arith, h)
outer-keeps (named t b) (list_of s c) h = cc
outer-keeps (list_of r b) (named u c) h = cc
