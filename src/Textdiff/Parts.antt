-- ===== src/Textdiff/Parts.antt =====
-- How `edits` cuts the two lists, and the script that it puts together.
use mathlib.Core.List.{reverse, reverse-cons, reverse-reverse}
use soothfast.Base.{
  ℕ, zero, suc, ◌+◌, ◌-◌, ◌≤◌, ◌≡◌, refl, sym, ap, ◌∙◌, Bool-cases, inl, inr, List, [], ◌∷◌, ◌++◌,
  map, arith, Text, text_eq, text_eq→eq, length, take, drop, length-append, length-drop,
}
use soothfast.Textdiff.{keep, common_prefix, walk, lcs_edits, slice, edits, common}
use soothfast.Textdiff.Script.{
  olds, news, IsScript, olds-append, news-append, olds-keep, news-keep, walk-IsScript,
}

pub take-common_prefix :
    (old new : List Text) → take (common_prefix old new) old ≡ take (common_prefix old new) new
unfolding common_prefix
take-common_prefix [] new = refl
take-common_prefix (a ∷ old) [] = refl
take-common_prefix (a ∷ old) (b ∷ new) = elim (Bool-cases (text_eq a b)) [
  | inl e ↦ rw e (rw (text_eq→eq a b e, take-common_prefix old new))
  | inr e ↦ rw e refl
]

pub common_prefix-le :
    (old new : List Text)
    → (common_prefix old new ≤ length old) × (common_prefix old new ≤ length new)
unfolding common_prefix
common_prefix-le [] new = (omega arith, omega arith)
common_prefix-le (a ∷ old) [] = (omega arith, omega arith)
common_prefix-le (a ∷ old) (b ∷ new) =
    (ground (arith, common_prefix-le old new), ground (arith, common_prefix-le old new))

pub take_append_drop : (n : ℕ) (ls : List Text) → take n ls ++ drop n ls ≡ ls
take_append_drop zero ls = refl
take_append_drop (suc n) [] = refl
take_append_drop (suc n) (l ∷ ls) = rw (take_append_drop n ls)

drop-append : (n : ℕ) (xs ys : List Text) → n ≤ length xs → drop n (xs ++ ys) ≡ drop n xs ++ ys
drop-append zero xs ys h = refl
drop-append (suc n) [] ys h = absurd (omega arith)
drop-append (suc n) (x ∷ xs) ys h = drop-append n xs ys (omega arith)

drop-nil : (n : ℕ) → drop {A = Text} n [] ≡ []
drop-nil zero = refl
drop-nil (suc n) = refl

pub drop-drop : (m n : ℕ) (ls : List Text) → drop m (drop n ls) ≡ drop (n + m) ls
drop-drop m zero ls = let e : 0 + m ≡ m = omega arith in rw e refl
drop-drop m (suc n) [] = let e : suc n + m ≡ suc (n + m) = omega arith in rw e (drop-nil m)
drop-drop m (suc n) (l ∷ ls) =
    let e : suc n + m ≡ suc (n + m) = omega arith in rw e (drop-drop m n ls)

pub drop-length : (ls : List Text) → drop (length ls) ls ≡ []
drop-length [] = refl
drop-length (l ∷ ls) = drop-length ls

length-reverse : (ls : List Text) → length (reverse ls) ≡ length ls
length-reverse [] = refl
length-reverse (l ∷ ls) =
    rw (reverse-cons l ls) (omega (arith, length-append (reverse ls) (l ∷ []), length-reverse ls))

reverse-take :
    (n : ℕ) (ls : List Text)
    → n ≤ length ls
    → reverse (take n ls) ≡ drop (length ls - n) (reverse ls)
reverse-take zero ls h =
    let e : length ls - 0 ≡ length (reverse ls) = omega (arith, length-reverse ls) in
    rw e (sym (drop-length (reverse ls)))
reverse-take (suc n) [] h = absurd (omega arith)
reverse-take (suc n) (l ∷ ls) h =
    let e : suc (length ls) - suc n ≡ length ls - n = omega arith in
    let le : length ls - n ≤ length (reverse ls) = omega (arith, length-reverse ls) in
    rw (e, reverse-cons l ls, reverse-cons l (take n ls))
      (ap (λ k. k ++ l ∷ []) (reverse-take n ls (omega arith))
        ∙ sym (drop-append (length ls - n) (reverse ls) (l ∷ []) le))

-- The last lines, counted from the end.
drop-last :
    (s : ℕ) (ls : List Text)
    → s ≤ length ls
    → drop (length ls - s) ls ≡ reverse (take s (reverse ls))
drop-last s ls h =
    let le : s ≤ length (reverse ls) = omega (arith, length-reverse ls) in
    sym (rw (length-reverse ls, reverse-reverse ls) at (reverse-take s (reverse ls) le))

-- The three parts that `edits` cuts two lists into: equal lines in front, the lines that differ, and
-- equal lines at the end.
pub record Parts (old new : List Text) : Type 0 where
  pub front : List Text
  pub old_middle : List Text
  pub new_middle : List Text
  pub back : List Text
  pub old_is : old ≡ front ++ (old_middle ++ back)
  pub new_is : new ≡ front ++ (new_middle ++ back)
  pub edits_is :
      edits old new ≡ map keep front ++ (lcs_edits old_middle new_middle ++ map keep back)

rest_length :
    (p s : ℕ) (ls : List Text)
    → p ≤ length ls
    → s ≤ length (drop p ls)
    → (slice ls p (length ls - s) ≡ take (length (drop p ls) - s) (drop p ls))
      × (drop (length ls - s) ls ≡ drop (length (drop p ls) - s) (drop p ls))
rest_length p s ls h k =
    let k' : s ≤ length ls - p = omega (arith, length-drop p ls) in
    let e : length ls - s - p ≡ length (drop p ls) - s = omega (arith, length-drop p ls) in
    let f : length ls - s ≡ p + (length (drop p ls) - s) = omega (arith, length-drop p ls) in
    (
      ap (λ m. take m (drop p ls)) e,
      ap (λ m. drop m ls) f ∙ sym (drop-drop (length (drop p ls) - s) p ls),
    )

pub edits-Parts : (old new : List Text) → Parts old new
unfolding edits
edits-Parts old new =
    let p = common_prefix old new in
    let o = drop p old in
    let n = drop p new in
    let s = common_prefix (reverse o) (reverse n) in
    let po = common_prefix-le old new in
    let so : s ≤ length o =
      omega (arith, common_prefix-le (reverse o) (reverse n), length-reverse o) in
    let sn : s ≤ length n =
      omega (arith, common_prefix-le (reverse o) (reverse n), length-reverse n) in
    let same : drop (length n - s) n ≡ drop (length o - s) o =
      drop-last s n sn
      ∙ ap reverse (sym (take-common_prefix (reverse o) (reverse n)))
      ∙ sym (drop-last s o so) in
    let lo = rest_length p s old po.0 so in
    let ln = rest_length p s new po.1 sn in
    record {
      front = take p old;
      old_middle = take (length o - s) o;
      new_middle = take (length n - s) n;
      back = drop (length o - s) o;
      old_is =
          sym (
            ap (λ k. take p old ++ k) (take_append_drop (length o - s) o) ∙ take_append_drop p old);
      new_is = sym (
          ap (λ k. take p old ++ (take (length n - s) n ++ k)) (sym same)
          ∙ ap (λ k. take p old ++ k) (take_append_drop (length n - s) n)
          ∙ ap (λ k. k ++ n) (take-common_prefix old new)
          ∙ take_append_drop p new);
      edits_is = rw (lo.0, ln.0, lo.1) refl;
    }

IsScript-parts :
    (f o n b : List Text)
    → IsScript (map keep f ++ (lcs_edits o n ++ map keep b)) (f ++ (o ++ b)) (f ++ (n ++ b))
unfolding lcs_edits
IsScript-parts f o n b =
    let m = walk-IsScript (common o n) 0 o 0 n in
    (
      rw
          (
            olds-append (map keep f) (walk (common o n) 0 o 0 n ++ map keep b),
            olds-append (walk (common o n) 0 o 0 n) (map keep b),
            olds-keep f,
            olds-keep b,
            m.0,
          )
          refl,
      rw
          (
            news-append (map keep f) (walk (common o n) 0 o 0 n ++ map keep b),
            news-append (walk (common o n) 0 o 0 n) (map keep b),
            news-keep f,
            news-keep b,
            m.1,
          )
          refl,
    )

-- The edits read the old lines, all of them in order, and write the new ones.
pub edits-IsScript : (old new : List Text) → IsScript (edits old new) old new
edits-IsScript old new =
    let ps = edits-Parts old new in
    let s = IsScript-parts ps.front ps.old_middle ps.new_middle ps.back in
    (ap olds ps.edits_is ∙ s.0 ∙ sym ps.old_is, ap news ps.edits_is ∙ s.1 ∙ sym ps.new_is)
