-- ===== src/Textdiff.antt =====
-- cargo-soothfast/src/init/textdiff.rs: the unified diff that `init` shows. Here the edit script between
-- two lists of lines, by a table of longest common subsequences; Hunks has the text of the diff.
pub mod Hunks
pub mod Script
pub mod Parts
pub mod Lcs
pub mod Shortest
pub mod Unified
mod Tests
use mathlib.Core.List.{reverse}
use soothfast.Base.{
  ℕ, zero, suc, ◌+◌, ◌-◌, ◌%◌, ◌^◌, max, List, [], ◌∷◌, ◌++◌, map, Option, none, some,
  if◌then◌else◌, leb, Text, text_eq, length, take, drop, get_elem?,
}

pub data Op : Type 0 where
  keep del add : Text → Op

-- `zip(…).take_while(|(a, b)| a == b).count()`
unfoldable pub common_prefix : List Text → List Text → ℕ
common_prefix [] new = 0
common_prefix (a ∷ old) [] = 0
common_prefix (a ∷ old) (b ∷ new) =
    let rest = common_prefix old new in if text_eq a b then suc rest else 0

-- The table holds `u32`s.
abbrev pub u32_mod : ℕ
u32_mod = 2 ^ 32

abbrev pub head_or_zero : List ℕ → ℕ
head_or_zero [] = 0
head_or_zero (n ∷ _) = n

abbrev pub row_at : List (List ℕ) → ℕ → List ℕ
row_at t i = elim (get_elem? t i) [ some r ↦ r | none ↦ [] ]

-- `common[i * width + j]`
abbrev pub cell : List (List ℕ) → ℕ → ℕ → ℕ
cell t i j = elim (get_elem? (row_at t i) j) [ some n ↦ n | none ↦ 0 ]

-- The row of one line of `old`, from its last cell to its first, over the row below it.
unfoldable pub row : Text → List Text → List ℕ → List ℕ
row a [] below = 0 ∷ []
row a (b ∷ new) below =
    let right = row a new (drop 1 below) in
    (if text_eq a b
      then (head_or_zero (drop 1 below) + 1) % u32_mod
      else max (head_or_zero below) (head_or_zero right))
    ∷ right

abbrev pub zeros : List Text → List ℕ
zeros [] = 0 ∷ []
zeros (b ∷ new) = 0 ∷ zeros new

-- The rows from the first line of `old` on; the last one is all zeros.
unfoldable pub common : List Text → List Text → List (List ℕ)
common [] new = zeros new ∷ []
common (a ∷ old) new = let below = common old new in row a new (row_at below 0) ∷ below

-- The loop's rounds in row `i`, with `down`, the rounds below it. It ends at the end of either list.
unfoldable pub across :
    List (List ℕ) → ℕ → Text → List Text → (ℕ → List Text → List Op) → ℕ → List Text → List Op
across t i a old down j [] = map del (a ∷ old)
across t i a old down j (b ∷ new) =
    let right = across t i a old down (suc j) new in
    if text_eq a b
    then keep a ∷ down (suc j) new
    else if leb (cell t i (suc j)) (cell t (suc i) j)
    then del a ∷ down j (b ∷ new)
    else add b ∷ right

-- The loop from `(i, j)`, over what is left of the two lists.
unfoldable pub walk : List (List ℕ) → ℕ → List Text → ℕ → List Text → List Op
walk t i [] j new = map add new
walk t i (a ∷ old) j new = across t i a old (walk t (suc i) old) j new

unfoldable pub lcs_edits : List Text → List Text → List Op
unfolding common walk
lcs_edits old new = walk (common old new) 0 old 0 new

-- `xs[start..end]`
abbrev pub slice : List Text → ℕ → ℕ → List Text
slice xs start end = take (end - start) (drop start xs)

unfoldable pub edits : List Text → List Text → List Op
unfolding lcs_edits
edits old new =
    let prefix = common_prefix old new in
    let suffix = common_prefix (reverse (drop prefix old)) (reverse (drop prefix new)) in
    map keep (take prefix old)
    ++ (lcs_edits (slice old prefix (length old - suffix)) (slice new prefix (length new - suffix))
        ++ map keep (drop (length old - suffix) old))
