-- ===== src/Textdiff/Script.antt =====
-- What a script reads and writes, and the script that the walk over the table gives.
use soothfast.Base.{
  ℕ, suc, ◌≡◌, refl, ap, Bool-cases, inl, inr, List, [], ◌∷◌, ◌++◌, map, leb, Text, text_eq,
  text_eq→eq,
}
use soothfast.Textdiff.{Op, keep, del, add, across, walk, cell}

-- The lines that a script reads, and those it writes.
abbrev pub olds : List Op → List Text
olds [] = []
olds (keep l ∷ ops) = l ∷ olds ops
olds (del l ∷ ops) = l ∷ olds ops
olds (add l ∷ ops) = olds ops

abbrev pub news : List Op → List Text
news [] = []
news (keep l ∷ ops) = l ∷ news ops
news (del l ∷ ops) = news ops
news (add l ∷ ops) = l ∷ news ops

pub olds-append : (xs ys : List Op) → olds (xs ++ ys) ≡ olds xs ++ olds ys
olds-append [] ys = refl
olds-append (keep l ∷ xs) ys = rw (olds-append xs ys)
olds-append (del l ∷ xs) ys = rw (olds-append xs ys)
olds-append (add l ∷ xs) ys = olds-append xs ys

pub news-append : (xs ys : List Op) → news (xs ++ ys) ≡ news xs ++ news ys
news-append [] ys = refl
news-append (keep l ∷ xs) ys = rw (news-append xs ys)
news-append (del l ∷ xs) ys = news-append xs ys
news-append (add l ∷ xs) ys = rw (news-append xs ys)

pub olds-keep : (ls : List Text) → olds (map keep ls) ≡ ls
olds-keep [] = refl
olds-keep (l ∷ ls) = rw (olds-keep ls)

pub news-keep : (ls : List Text) → news (map keep ls) ≡ ls
news-keep [] = refl
news-keep (l ∷ ls) = rw (news-keep ls)

olds-del : (ls : List Text) → (olds (map del ls) ≡ ls) × (news (map del ls) ≡ [])
olds-del [] = (refl, refl)
olds-del (l ∷ ls) = (ap (λ k. l ∷ k) (olds-del ls).0, (olds-del ls).1)

news-add : (ls : List Text) → (olds (map add ls) ≡ []) × (news (map add ls) ≡ ls)
news-add [] = (refl, refl)
news-add (l ∷ ls) = ((news-add ls).0, ap (λ k. l ∷ k) (news-add ls).1)

-- A script from `old` to `new`.
abbrev pub IsScript : List Op → List Text → List Text → Type 0
IsScript ops old new = (olds ops ≡ old) × (news ops ≡ new)

module _ (t : List (List ℕ)) where
  across-IsScript :
      (i : ℕ) (a : Text) (old : List Text) (down : ℕ → List Text → List Op)
      → ((j : ℕ) (new : List Text) → IsScript (down j new) old new)
      → (j : ℕ) (new : List Text) → IsScript (across t i a old down j new) (a ∷ old) new
  unfolding across
  across-IsScript i a old down d j [] = olds-del (a ∷ old)
  across-IsScript i a old down d j (b ∷ new) = elim (Bool-cases (text_eq a b)) [
    | inl e ↦
        rw (e, across)
          (
            ap (λ k. a ∷ k) (d (suc j) new).0,
            rw (text_eq→eq a b e) (ap (λ k. b ∷ k) (d (suc j) new).1),
          )
    | inr e ↦ elim (Bool-cases (leb (cell t i (suc j)) (cell t (suc i) j))) [
      | inl f ↦ rw (e, f, across) (ap (λ k. a ∷ k) (d j (b ∷ new)).0, (d j (b ∷ new)).1)
      | inr f ↦
          rw (e, f, across)
            (
              (across-IsScript i a old down d (suc j) new).0,
              ap (λ k. b ∷ k) (across-IsScript i a old down d (suc j) new).1,
            )
    ]
  ]

  pub walk-IsScript :
      (i : ℕ) (old : List Text) (j : ℕ) (new : List Text) → IsScript (walk t i old j new) old new
  unfolding walk
  walk-IsScript i [] j new = news-add new
  walk-IsScript i (a ∷ old) j new =
      across-IsScript i a old (walk t (suc i) old) (walk-IsScript (suc i) old) j new
