-- ===== src/Base/Lines.antt =====
-- `str::lines`, and how many lines a joined text has.
use soothfast.Base.Chars.{Text, codes, join}
use soothfast.Base.Lists.{length, All}
use soothfast.Base.Tests.{◌==◌, if◌then◌else◌, Bool-cases}
use Prim.Native.Nat.{ℕ, suc, ◌+◌, ◌≤◌}
use mathlib.Core.Path.{◌≡◌, refl}
use mathlib.Core.Logic.{◌≢◌, inl, inr}
use mathlib.Core.Bool.{Bool, false, ◌&&◌}
use mathlib.Core.List.{List, [], ◌∷◌, ◌++◌}
use native.Mathlib.Omega.{arith}

abbrev pub newline : ℕ
newline = 10

abbrev pub carriage_return : ℕ
carriage_return = 13

abbrev pub begins : ℕ → Text → Bool
begins c [] = false
begins c (d ∷ s) = d == c

abbrev pub push_front : ℕ → List Text → List Text
push_front c [] = (c ∷ []) ∷ []
push_front c (l ∷ ls) = (c ∷ l) ∷ ls

-- A line ends at `\n` or `\r\n`; a last line without an end counts, an empty one does not.
unfoldable pub lines : Text → List Text
lines [] = []
lines (c ∷ s) =
    let rest = lines s in
    if c == newline
    then [] ∷ rest
    else if c == carriage_return && begins newline s
    then rest
    else push_front c rest

-- How many `\n` a text holds.
abbrev pub newlines : Text → ℕ
newlines [] = 0
newlines (c ∷ s) = if c == newline then suc (newlines s) else newlines s

pub newlines-append : (s t : Text) → newlines (s ++ t) ≡ newlines s + newlines t
newlines-append [] t = omega arith
newlines-append (c ∷ s) t = ground (arith, newlines-append s t)

push_front-one-line :
    (c : ℕ) (ls : List Text)
    → c ≢ newline
    → All (λ l. newlines l ≡ 0) ls
    → All (λ l. newlines l ≡ 0) (push_front c ls)
push_front-one-line c [] n a = ground arith
push_front-one-line c (l ∷ ls) n a = (ground arith, a.1)

-- No line holds a line end.
pub lines-one-line : (s : Text) → All (λ l. newlines l ≡ 0) (lines s)
unfolding lines
lines-one-line [] = tt
lines-one-line (c ∷ s) = elim (Bool-cases (c == newline)) [
  | inl e ↦ rw e (refl, lines-one-line s)
  | inr e ↦ rw e (elim (Bool-cases (c == carriage_return && begins newline s)) [
    | inl f ↦ rw f (lines-one-line s)
    | inr f ↦ rw f (push_front-one-line c (lines s) (ground arith) (lines-one-line s))
  ])
]

length-push_front : (c : ℕ) (ls : List Text) → length (push_front c ls) ≤ suc (length ls)
length-push_front c [] = omega arith
length-push_front c (l ∷ ls) = omega arith

length-push_front-cons :
    (c : ℕ) (n : ℕ) (ls : List Text) → length ls ≤ suc n → length (push_front c ls) ≤ suc n
length-push_front-cons c n [] h = omega arith
length-push_front-cons c n (l ∷ ls) h = h

-- A text has one line more than line ends, at most.
pub length-lines-le : (s : Text) → length (lines s) ≤ suc (newlines s)
unfolding lines
length-lines-le [] = omega arith
length-lines-le (c ∷ s) =
    ground (
      arith,
      length-lines-le s,
      length-push_front-cons c (newlines s) (lines s) (length-lines-le s),
    )

newlines-join :
    (l : Text) (ls : List Text)
    → All (λ l. newlines l ≡ 0) (l ∷ ls)
    → newlines (join (l ∷ ls) (codes "\n")) ≡ length ls
unfolding join
newlines-join l [] a = a.0
newlines-join l (m ∷ ls) a =
    ground (arith, newlines-join m ls a.1, newlines-append l (newline ∷ join (m ∷ ls) (codes "\n")))

-- Joining lines makes no more of them.
pub length-lines-join :
    (ls : List Text)
    → All (λ l. newlines l ≡ 0) ls
    → length (lines (join ls (codes "\n"))) ≤ length ls
unfolding join
length-lines-join [] a = let e : lines [] ≡ [] = unfold lines in refl in rw e (omega arith)
length-lines-join (l ∷ ls) a =
    omega (arith, length-lines-le (join (l ∷ ls) (codes "\n")), newlines-join l ls a)
