-- ===== src/Compat/Pairs.antt =====
-- Pairs of references: all there can be, and how many of them the walk has not seen.
use soothfast.Base.{
  ℕ, suc, ◌≤◌, ◌≡◌, ◌↔◌, refl, ap, true, false, not, ◌||◌, List, [], ◌∷◌, ◌++◌, map, arith, Text,
  text_eq, text_eq_iff, mem_text, length, keep, Bool-cases, inl, inr,
}
use soothfast.Compat.Walk.{Seen, pair_eq, mem_pair}

pub pair_eq_iff : (p q : Text × Text) → (pair_eq p q ≡ true) ↔ (p ≡ q)
pair_eq_iff p q = (
  λ h. ap_pair ((text_eq_iff p.0 q.0).0 (ground arith)) ((text_eq_iff p.1 q.1).0 (ground arith)),
  λ h.
      ground (
        arith,
        (text_eq_iff p.0 q.0).1 (ap (λ r. r.0) h),
        (text_eq_iff p.1 q.1).1 (ap (λ r. r.1) h),
      ),
)
  where
    ap_pair : p.0 ≡ q.0 → p.1 ≡ q.1 → p ≡ q
    ap_pair a b = cc

-- Every pair of a text of the one list and a text of the other.
abbrev row : Text → List Text → Seen
row a = map λ b. (a, b)

abbrev pub pairs : List Text → List Text → Seen
pairs [] bs = []
pairs (a ∷ xs) bs = row a bs ++ pairs xs bs

mem_pair-append :
    (p : Text × Text) (xs ys : Seen) → mem_pair p (xs ++ ys) ≡ (mem_pair p xs || mem_pair p ys)
unfolding mem_pair
mem_pair-append p [] ys = refl
mem_pair-append p (x ∷ xs) ys = ground (arith, mem_pair-append p xs ys)

mem-row : (a b : Text) (bs : List Text) → mem_text b bs ≡ true → mem_pair (a, b) (row a bs) ≡ true
unfolding mem_pair mem_text
mem-row a b [] h = cc
mem-row a b (c ∷ bs) h = ground (arith, h, mem-row a b bs, text_eq_iff a a)

pub mem-pairs :
    (a b : Text) (xs bs : List Text)
    → mem_text a xs ≡ true
    → mem_text b bs ≡ true
    → mem_pair (a, b) (pairs xs bs) ≡ true
unfolding mem_text
mem-pairs a b [] bs h k = cc
mem-pairs a b (x ∷ xs) bs h k = elim (Bool-cases (text_eq x a)) [
  | inl e ↦
      let q : x ≡ a = (text_eq_iff x a).0 e in
      rw (mem_pair-append (a, b) (row x bs) (pairs xs bs), q) (ground (arith, mem-row a b bs k))
  | inr e ↦
      rw (mem_pair-append (a, b) (row x bs) (pairs xs bs))
        (ground (arith, mem-pairs a b xs bs (ground (arith, h, e)) k))
]

-- How many of the pairs are not yet seen.
abbrev pub unseen : Seen → Seen → ℕ
unseen all seen = length (keep (λ p. not (mem_pair p seen)) all)

pub unseen-cons-le : (p : Text × Text) (all seen : Seen) → unseen all (p ∷ seen) ≤ unseen all seen
unfolding mem_pair
unseen-cons-le p [] seen = omega arith
unseen-cons-le p (q ∷ all) seen = ground (arith, unseen-cons-le p all seen)

pub unseen-cons :
    (p : Text × Text) (all seen : Seen)
    → mem_pair p all ≡ true
    → mem_pair p seen ≡ false
    → suc (unseen all (p ∷ seen)) ≤ unseen all seen
unfolding mem_pair
unseen-cons p [] seen h k = cc
unseen-cons p (q ∷ all) seen h k = elim (Bool-cases (pair_eq q p)) [
  | inl e ↦
      let same : q ≡ p = (pair_eq_iff q p).0 e in
      rw same (ground (arith, unseen-cons-le p all seen, (pair_eq_iff p p).1 refl, k))
  | inr e ↦
      ground (arith, unseen-cons p all seen (ground (arith, h, e)) k, unseen-cons-le p all seen)
]

pub unseen_le : (all seen : Seen) → unseen all seen ≤ length all
unseen_le [] seen = omega arith
unseen_le (p ∷ all) seen = ground (arith, unseen_le all seen)
